-- ===== src/ProjectState/Rounds.antt =====
-- Completing the tasks of an epic one after another, as TaskCompleter does.
use gpt_pilot.Prelude.{
  ℕ, zero, suc, ◌≡◌, ◌∙◌, ap, refl, false, List, [], ◌∷◌, arith, length, tail, is_empty,
}
use gpt_pilot.Result.{Result, ok, ◌>>=◌}
use gpt_pilot.Records.{Task}
use gpt_pilot.ProjectState.{ProjectState, unfinished_tasks, unfinished_epics, complete_task}
use gpt_pilot.ProjectState.Completion.{complete_task_lem, complete_task_total}

-- `complete_task` so many times.
pub complete_tasks : ℕ → ProjectState → Result ProjectState
complete_tasks zero s = ok s
complete_tasks (suc n) s = complete_task s >>= complete_tasks n

length-tail : (n : ℕ) (tasks : List Task) → length tasks ≡ suc n → length (tail tasks) ≡ n
length-tail n [] h = absurd (omega arith)
length-tail n (t ∷ tasks) h = omega arith

tail_of_length : (tasks : List Task) → length tasks ≡ 1 → tail tasks ≡ []
tail_of_length [] h = absurd (omega arith)
tail_of_length (t ∷ []) h = refl
tail_of_length (t ∷ u ∷ tasks) h = absurd (omega arith)

nonempty_of_length : (n : ℕ) (tasks : List Task) → length tasks ≡ suc n → is_empty tasks ≡ false
nonempty_of_length n [] h = absurd (omega arith)
nonempty_of_length n (t ∷ tasks) h = refl

-- With n + 1 unfinished tasks, n + 1 rounds of `complete_task` succeed, leave no unfinished task, and
-- complete exactly the first unfinished epic.
pub complete_tasks_lem :
    (n : ℕ) (s : ProjectState)
    → s.has_next ≡ false
    → length (unfinished_tasks s) ≡ suc n
    → (s' : ProjectState) × (complete_tasks (suc n) s ≡ ok s')
      × (unfinished_tasks s' ≡ [])
      × (unfinished_epics s' ≡ tail (unfinished_epics s))
unfolding complete_tasks
complete_tasks_lem zero s writable count =
    let (s', done) = complete_task_total s (nonempty_of_length zero _ count) writable in
    let facts = complete_task_lem s done in
    let last = tail_of_length (unfinished_tasks s) count in
    (s', rw done, facts.0 ∙ last, ground (arith, facts.1, last))
complete_tasks_lem (suc n) s writable count =
    let (s', done) = complete_task_total s (nonempty_of_length (suc n) _ count) writable in
    let facts = complete_task_lem s done in
    let left = length-tail (suc n) (unfinished_tasks s) count in
    let rest = complete_tasks_lem n s' (ground (arith, facts)) (ap length facts.0 ∙ left) in
    (rest.0, rw done rest.1, rest.2, ground (arith, rest.3, facts.1, nonempty_of_length n _ left))
