-- ===== src/Scheduler/Resources.antt =====
-- CPU threads and GPU memory are never given out twice, and none get lost.
use gpt_pilot.Prelude.{
  inl, inr, Option-cases, subst, ℕ, zero, suc, ◌+◌, ◌-◌, ◌≤◌, ◌≡◌, refl, some, List, [], ◌∷◌, ◌++◌,
  nat_eq, arith,
}
use gpt_pilot.Result.{ok}
use gpt_pilot.Scheduler.{
  OllamaJob, Worker, OllamaScheduler, idle, exited, cpu_waiting, in_cpu, in_gpu, gpu_waiting,
  new_scheduler, put, submit, cancel, step, worker_at, set_worker, advance,
}

abbrev pub cpu_held : Worker → ℕ
cpu_held (in_cpu job) = 1
cpu_held w = 0

abbrev pub gpu_held : Worker → ℕ
gpu_held (gpu_waiting job taken) = taken
gpu_held (in_gpu job) = job.gpu_mem_mb
gpu_held w = 0

-- The GPU memory of a job that runs on the GPU.
abbrev pub gpu_used : Worker → ℕ
gpu_used (in_gpu job) = job.gpu_mem_mb
gpu_used w = 0

abbrev pub gpu_runs : Worker → ℕ
gpu_runs (in_gpu job) = 1
gpu_runs w = 0

abbrev pub total : (Worker → ℕ) → List Worker → ℕ
total f [] = 0
total f (w ∷ workers) = f w + total f workers

total-append : (f : Worker → ℕ) (ws vs : List Worker) → total f (ws ++ vs) ≡ total f ws + total f vs
total-append f [] vs = omega arith
total-append f (w ∷ ws) vs = omega (arith, total-append f ws vs)

total-set_worker :
    (f : Worker → ℕ) (n : ℕ) (w v : Worker) (workers : List Worker)
    → worker_at n workers ≡ some w
    → total f (set_worker n v workers) + f w ≡ total f workers + f v
total-set_worker f n w v [] at = absurd (ground (arith, at))
total-set_worker f zero w v (u ∷ workers) at = ground (arith, at)
total-set_worker f (suc n) w v (u ∷ workers) at = omega (arith, total-set_worker f n w v workers at)

total-at :
    (f : Worker → ℕ) (n : ℕ) (w : Worker) (workers : List Worker)
    → worker_at n workers ≡ some w
    → f w ≤ total f workers
total-at f n w [] at = absurd (ground (arith, at))
total-at f zero w (u ∷ workers) at = ground (arith, at)
total-at f (suc n) w (u ∷ workers) at = omega (arith, total-at f n w workers at)

total-le :
    (f g : Worker → ℕ)
    → ((w : Worker) → f w ≤ g w)
    → (workers : List Worker) → total f workers ≤ total g workers
total-le f g le [] = omega arith
total-le f g le (w ∷ workers) = omega (arith, le w, total-le f g le workers)

-- Units taken beyond what the job asks for.
abbrev pub excess : Worker → ℕ
excess (gpu_waiting job taken) = taken - job.gpu_mem_mb
excess w = 0

-- The free and the held resources make up the total ones, the active jobs are counted, and no worker
-- takes more than its job asks for.
pub record Conserved (s : OllamaScheduler) : Type 0 where
  pub cpu : s.cpu_free + total cpu_held s.workers ≡ s.total_cpu_threads
  pub gpu : s.gpu_mem_free + total gpu_held s.workers ≡ s.total_gpu_mem
  pub active : s.gpu_active ≡ total gpu_runs s.workers
  pub exact : total excess s.workers ≡ 0

-- What a step of a worker takes or gives back.
record Balanced (w w' : Worker) (s s' : OllamaScheduler) : Type 0 where
  workers : s'.workers ≡ s.workers
  cpu : s'.cpu_free + cpu_held w' ≡ s.cpu_free + cpu_held w
  gpu : s'.gpu_mem_free + gpu_held w' ≡ s.gpu_mem_free + gpu_held w
  active : s'.gpu_active + gpu_runs w ≡ s.gpu_active + gpu_runs w'
  exact : excess w' ≡ 0
  cpu_total : s'.total_cpu_threads ≡ s.total_cpu_threads
  gpu_total : s'.total_gpu_mem ≡ s.total_gpu_mem

step-Balanced :
    (w w' : Worker) (s s' : OllamaScheduler)
    → excess w ≡ 0
    → gpu_runs w ≤ s.gpu_active
    → step w s ≡ some (w', s')
    → Balanced w w' s s'
unfolding step
step-Balanced idle w' s s' exact active done = ground (arith, done)
step-Balanced exited w' s s' exact active done = absurd (ground (arith, done))
step-Balanced (cpu_waiting job) w' s s' exact active done = ground (arith, done)
step-Balanced (in_cpu job) w' s s' exact active done = ground (arith, done)
step-Balanced (gpu_waiting job taken) w' s s' exact active done = ground (arith, done, exact)
step-Balanced (in_gpu job) w' s s' exact active done = ground (arith, done, active)

Conserved-advance :
    (n : ℕ) (s s' : OllamaScheduler) → advance n s ≡ some s' → Conserved s → Conserved s'
unfolding advance
Conserved-advance n s s' done wf = elim (Option-cases (worker_at n s.workers)) [
  | inl none_at ↦ absurd (ground (arith, none_at, done))
  | inr (w, at) ↦ elim (Option-cases (step w s)) [
    | inl waits ↦ absurd (ground (arith, at, waits, done))
    | inr ((w', t), moved) ↦
        let exact : excess w ≡ 0 = omega (arith, total-at excess n w s.workers at, wf.exact) in
        let active : gpu_runs w ≤ s.gpu_active =
          omega (arith, total-at gpu_runs n w s.workers at, wf.active) in
        let b = step-Balanced w w' s t exact active moved in
        let is : record t { workers = set_worker n w' t.workers } ≡ s' =
          ground (arith, at, moved, done) in
        let change : (f : Worker → ℕ)
            → total f (set_worker n w' t.workers) + f w ≡ total f s.workers + f w' =
          λ f. rw b.workers (total-set_worker f n w w' s.workers at) in
        subst Conserved is (record {
          cpu = omega (arith, change cpu_held, b.cpu, wf.cpu, b.cpu_total);
          gpu = omega (arith, change gpu_held, b.gpu, wf.gpu, b.gpu_total);
          active = omega (arith, change gpu_runs, b.active, wf.active);
          exact = omega (arith, change excess, b.exact, exact, wf.exact);
        })
  ]
]

Conserved-submit :
    (job : OllamaJob) (s s' : OllamaScheduler) → submit job s ≡ ok s' → Conserved s → Conserved s'
unfolding submit
Conserved-submit job s s' done wf =
    let is : record s { queue = put job s.queue; workers = s.workers ++ idle ∷ [] } ≡ s' =
      ground (arith, done) in
    subst Conserved is (record {
      cpu = omega (arith, total-append cpu_held s.workers (idle ∷ []), wf.cpu);
      gpu = omega (arith, total-append gpu_held s.workers (idle ∷ []), wf.gpu);
      active = omega (arith, total-append gpu_runs s.workers (idle ∷ []), wf.active);
      exact = omega (arith, total-append excess s.workers (idle ∷ []), wf.exact);
    })

-- The schedulers that submissions, cancellations and steps of the workers lead to, in any order.
pub data Reachable : OllamaScheduler → Type 0 where
  start :
      (total_cpu_threads total_gpu_mem : ℕ)
      → Reachable (new_scheduler total_cpu_threads total_gpu_mem)
  submitted :
      {s s' : OllamaScheduler}
      → Reachable s
      → (job : OllamaJob) → submit job s ≡ ok s'
      → Reachable s'
  cancelled : {s : OllamaScheduler} → Reachable s → (id : ℕ) → Reachable (cancel id s)
  advanced : {s s' : OllamaScheduler} → Reachable s → (n : ℕ) → advance n s ≡ some s' → Reachable s'

Reachable-Conserved_all : {s : OllamaScheduler} → Reachable s → Conserved s
unfolding new_scheduler cancel
Reachable-Conserved_all (start cpu gpu) = record {
  cpu = omega arith;
  gpu = omega arith;
  active = refl;
  exact = refl;
}
Reachable-Conserved_all (submitted {s = s} {s' = s'} r job done) =
    Conserved-submit job s s' done (Reachable-Conserved_all r)
Reachable-Conserved_all (cancelled {s = s} r id) =
    let wf = Reachable-Conserved_all r in
    record { cpu = wf.cpu; gpu = wf.gpu; active = wf.active; exact = wf.exact }
Reachable-Conserved_all (advanced {s = s} {s' = s'} r n done) =
    Conserved-advance n s s' done (Reachable-Conserved_all r)

gpu_used-le-gpu_held : (w : Worker) → gpu_used w ≤ gpu_held w
gpu_used-le-gpu_held idle = omega arith
gpu_used-le-gpu_held exited = omega arith
gpu_used-le-gpu_held (cpu_waiting job) = omega arith
gpu_used-le-gpu_held (in_cpu job) = omega arith
gpu_used-le-gpu_held (in_gpu job) = omega arith
gpu_used-le-gpu_held (gpu_waiting job taken) = omega arith

-- In any order of submissions, cancellations and steps, the free and the held CPU permits and units of
-- GPU memory make up the total ones, so that none is lost, and the jobs that run on the GPU together
-- never need more memory than there is.
pub Reachable-Conserved :
    {s : OllamaScheduler} → Reachable s → Conserved s × (total gpu_used s.workers ≤ s.total_gpu_mem)
Reachable-Conserved {s = s} r =
    let wf = Reachable-Conserved_all r in
    (wf, omega (arith, total-le gpu_used gpu_held gpu_used-le-gpu_held s.workers, wf.gpu))
