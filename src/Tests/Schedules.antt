-- ===== src/Tests/Schedules.antt =====
-- Two jobs of the Ollama scheduler that each need all the GPU memory.
use gpt_pilot.Prelude.{
  subst, Option-cases, inl, inr, ℕ, ◌≤◌, ◌≡◌, refl, Option, none, some, List, [], ◌∷◌, nat_eq,
  string_eq, arith,
}
use gpt_pilot.Scheduler.{
  OllamaJob, OllamaScheduler, idle, gpu_waiting, new_scheduler, put, submit, step, advance,
}
use gpt_pilot.Scheduler.Resources.{Reachable, Conserved, total, gpu_used, Reachable-Conserved}

abbrev big_job : ℕ → OllamaJob
big_job id = record { id = id; priority = 0; prompt = "p"; cpu_threads = 1; gpu_mem_mb = 2 }

-- The scheduler after the steps, `none` if one of the workers had to wait.
run : List ℕ → OllamaScheduler → Option OllamaScheduler
run [] s = some s
run (n ∷ ns) s = elim (advance n s) [ none ↦ none | some s' ↦ run ns s' ]

abbrev both_queued : OllamaScheduler
both_queued = record (new_scheduler 2 2) {
  queue = big_job 1 ∷ big_job 2 ∷ [];
  workers = idle ∷ idle ∷ [];
}

Reachable-run :
    (ns : List ℕ) (s s' : OllamaScheduler) → Reachable s → run ns s ≡ some s' → Reachable s'
unfolding run
Reachable-run [] s s' r done = subst Reachable (ground (arith, done)) r
Reachable-run (n ∷ ns) s s' r done = elim (Option-cases (advance n s)) [
  | inl waits ↦ absurd (ground (arith, waits, done))
  | inr (t, moved) ↦
      Reachable-run ns t s' (Reachable.advanced r n moved) (ground (arith, moved, done))
]

both_queued-Reachable : Reachable both_queued
unfolding new_scheduler submit put string_eq nat_eq
both_queued-Reachable =
    Reachable.submitted (Reachable.submitted (Reachable.start 2 2) (big_job 1) refl) (big_job 2)
      refl

-- Both workers take one unit each, and both need two.
abbrev deadlocked : OllamaScheduler
deadlocked = record (new_scheduler 2 2) {
  gpu_mem_free = 0;
  workers = gpu_waiting (big_job 1) 1 ∷ gpu_waiting (big_job 2) 1 ∷ [];
}

deadlocks : run (0 ∷ 1 ∷ 0 ∷ 1 ∷ 0 ∷ 1 ∷ 0 ∷ 1 ∷ []) both_queued ≡ some deadlocked
unfolding run advance step new_scheduler nat_eq
deadlocks = refl

Reachable-Conserved_example :
    Conserved deadlocked × (total gpu_used deadlocked.workers ≤ deadlocked.total_gpu_mem)
Reachable-Conserved_example = Reachable-Conserved (
    Reachable-run (0 ∷ 1 ∷ 0 ∷ 1 ∷ 0 ∷ 1 ∷ 0 ∷ 1 ∷ []) both_queued deadlocked both_queued-Reachable
      deadlocks)
