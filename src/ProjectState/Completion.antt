-- ===== src/ProjectState/Completion.antt =====
-- What the methods of ProjectState that complete a step, a task, an epic or an iteration do to the
-- queues of unfinished work.
use gpt_pilot.Prelude.{
  suc, String, ◌≡◌, refl, ◌∙◌, false, none, some, List, [], ◌==◌, string_eq, option_eq, arith,
  length, tail, is_empty, erase_first, select-update_first, erase_first-select, length-erase_first,
  if◌then◌else◌, is_empty-select, length-update_first, inl, erase_first-select_and, inr, select,
}
use gpt_pilot.Result.{ok, raise, index_error, Result-cases}
use gpt_pilot.Records.{TaskStatus, Task, Iteration, Step, Epic}
use gpt_pilot.ProjectState.{
  ProjectState, is_unfinished_step, is_unfinished_iteration, is_unfinished_task, is_unfinished_epic,
  unfinished_steps, unfinished_iterations, unfinished_tasks, unfinished_epics,
  is_unfinished_of_type, complete_step, complete_task, complete_iteration, tasks_unfinished,
  epics_unfinished, steps_unfinished, finish_step_of_type, iterations_unfinished, steps_of_type,
  finish_iteration, mark_task, finish_epic,
}

pub tasks-finish :
    (tasks : List Task)
    → tasks_unfinished (mark_task TaskStatus.done tasks) ≡ tail (tasks_unfinished tasks)
unfolding tasks_unfinished mark_task
tasks-finish tasks =
    select-update_first is_unfinished_task is_unfinished_task _ tasks (λ _ h. h) (λ _ _. refl)
    ∙ erase_first-select is_unfinished_task tasks

tasks_unfinished-nil : tasks_unfinished [] ≡ []
unfolding tasks_unfinished select
tasks_unfinished-nil = refl

pub epics-finish :
    (epics : List Epic) → epics_unfinished (finish_epic epics) ≡ tail (epics_unfinished epics)
unfolding epics_unfinished finish_epic
epics-finish epics =
    select-update_first is_unfinished_epic is_unfinished_epic _ epics (λ _ h. h) (λ _ _. refl)
    ∙ erase_first-select is_unfinished_epic epics

pub iterations-finish :
    (iterations : List Iteration)
    → iterations_unfinished (finish_iteration iterations) ≡ tail (iterations_unfinished iterations)
unfolding iterations_unfinished finish_iteration
iterations-finish iterations =
    select-update_first is_unfinished_iteration is_unfinished_iteration _ iterations (λ _ h. h)
      (λ _ _. refl)
    ∙ erase_first-select is_unfinished_iteration iterations

-- The steps without the first one of the type.
pub drop_first_of_type : String → List Step → List Step
drop_first_of_type step_type = erase_first (λ step. step.type == some step_type)

steps-finish :
    (step_type : String) (steps : List Step)
    → steps_unfinished (finish_step_of_type step_type steps)
      ≡ drop_first_of_type step_type (steps_unfinished steps)
unfolding steps_unfinished finish_step_of_type drop_first_of_type
steps-finish step_type steps =
    select-update_first (is_unfinished_of_type step_type) is_unfinished_step _ steps
      (λ _ h. ground arith) (λ _ _. refl)
    ∙ erase_first-select_and (λ step. step.type == some step_type) is_unfinished_step steps

length-drop_first_of_type :
    (step_type : String) (steps : List Step)
    → is_empty (steps_of_type step_type steps) ≡ false
    → length steps ≡ suc (length (drop_first_of_type step_type steps))
unfolding steps_of_type drop_first_of_type
length-drop_first_of_type step_type steps h =
    length-erase_first _ steps
      (ground (arith, is_empty-select (λ (step : Step). step.type == some step_type) steps))

length-finish_step :
    (step_type : String) (steps : List Step)
    → length (finish_step_of_type step_type steps) ≡ length steps
unfolding finish_step_of_type
length-finish_step step_type = length-update_first _ _

length-finish_iteration :
    (iterations : List Iteration) → length (finish_iteration iterations) ≡ length iterations
unfolding finish_iteration
length-finish_iteration = length-update_first _ _

-- A completed task leaves the queue of unfinished tasks; the rest of the queue keeps its order.
-- If it was the last one, the first unfinished epic is completed with it. The work on the task
-- (steps, iterations, file lists, documents) is dropped, and the files are kept.
pub complete_task_lem :
    (s : ProjectState) {s' : ProjectState}
    → complete_task s ≡ ok s'
    → (unfinished_tasks s' ≡ tail (unfinished_tasks s))
      × (unfinished_epics s' ≡ (
          if is_empty (tail (unfinished_tasks s))
          then tail (unfinished_epics s)
          else unfinished_epics s))
      × (s'.steps ≡ [])
      × (s'.iterations ≡ [])
      × (s'.modified_files ≡ [])
      × (s'.files ≡ s.files)
      × (s'.has_next ≡ false)
unfolding complete_task
complete_task_lem s h =
    ground (arith, tasks_unfinished-nil, tasks-finish s.tasks, epics-finish s.epics)

-- When there is a task to complete and the state is writable, `complete_task` does not raise.
pub complete_task_total :
    (s : ProjectState)
    → is_empty (unfinished_tasks s) ≡ false
    → s.has_next ≡ false
    → (s' : ProjectState) × (complete_task s ≡ ok s')
unfolding complete_task
complete_task_total s some_task writable = elim (Result-cases (complete_task s)) [
  | inl done ↦ done
  | inr (e, raised) ↦ absurd (ground arith)
]

-- Of the unfinished steps, `complete_step` takes off the first one of the type, and no other; it
-- drops no step from the list.
pub complete_step_lem :
    (s : ProjectState) (step_type : String) {s' : ProjectState}
    → complete_step s step_type ≡ ok s'
    → (unfinished_steps s' ≡ drop_first_of_type step_type (unfinished_steps s))
      × (length (unfinished_steps s) ≡ suc (length (unfinished_steps s')))
      × (length s'.steps ≡ length s.steps)
unfolding complete_step
complete_step_lem s step_type h = ground (
  arith,
  steps-finish step_type s.steps,
  length-drop_first_of_type step_type (steps_unfinished s.steps),
  length-finish_step step_type s.steps,
)

-- The exact condition under which `complete_step` raises an IndexError: there is unfinished work,
-- the state is writable, and no unfinished step has the type.
pub complete_step-index_error :
    (s : ProjectState) (step_type : String)
    → is_empty (unfinished_steps s) ≡ false
    → s.has_next ≡ false
    → steps_of_type step_type (unfinished_steps s) ≡ []
    → complete_step s step_type ≡ raise index_error
unfolding complete_step
complete_step-index_error s step_type work writable absent = ground arith

-- A completed iteration leaves the queue of unfinished iterations; the others keep their order.
pub complete_iteration_lem :
    (s : ProjectState) {s' : ProjectState}
    → complete_iteration s ≡ ok s'
    → (unfinished_iterations s' ≡ tail (unfinished_iterations s))
      × (length s'.iterations ≡ length s.iterations)
      × (s'.tasks ≡ s.tasks)
      × (s'.relevant_files ≡ none)
unfolding complete_iteration
complete_iteration_lem s h =
    ground (arith, iterations-finish s.iterations, length-finish_iteration s.iterations)
