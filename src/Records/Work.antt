-- ===== src/Records/Work.antt =====
-- The comprehensions of the properties of ProjectState in core/db/models/project_state.py that find
-- unfinished work, on the lists themselves, and the changes that its methods make through a
-- reference to the first element that a comprehension gives.
use gpt_pilot.Prelude.{
  String, Bool, true, false, not, ◌&&◌, Option, none, some, List, ◌==◌, string_eq, option_eq,
  select, update_first,
}
use gpt_pilot.Records.{TaskStatus, Task, IterationStatus, Iteration, Step, Epic}

abbrev pub is_unfinished_step : Step → Bool
is_unfinished_step step = not step.completed

abbrev pub unfinished_iteration_status : Option IterationStatus → Bool
unfinished_iteration_status none = false
unfinished_iteration_status (some IterationStatus.done) = false
unfinished_iteration_status (some status) = true

abbrev pub is_unfinished_iteration : Iteration → Bool
is_unfinished_iteration iteration = unfinished_iteration_status iteration.status

abbrev pub unfinished_task_status : Option TaskStatus → Bool
unfinished_task_status (some TaskStatus.done) = false
unfinished_task_status status = true

abbrev pub is_unfinished_task : Task → Bool
is_unfinished_task task = unfinished_task_status task.status

abbrev pub is_unfinished_epic : Epic → Bool
is_unfinished_epic epic = not epic.completed

unfoldable pub steps_unfinished : List Step → List Step
steps_unfinished = select is_unfinished_step

unfoldable pub steps_of_type : String → List Step → List Step
steps_of_type step_type = select (λ step. step.type == some step_type)

abbrev pub is_unfinished_of_type : String → Step → Bool
is_unfinished_of_type step_type step = is_unfinished_step step && step.type == some step_type

unfoldable pub finish_step_of_type : String → List Step → List Step
finish_step_of_type step_type =
    update_first (is_unfinished_of_type step_type) (λ step. record step { completed = true })

unfoldable pub iterations_unfinished : List Iteration → List Iteration
iterations_unfinished = select is_unfinished_iteration

unfoldable pub finish_iteration : List Iteration → List Iteration
finish_iteration =
    update_first is_unfinished_iteration
      (λ iteration. record iteration { status = some IterationStatus.done })

unfoldable pub tasks_unfinished : List Task → List Task
tasks_unfinished = select is_unfinished_task

unfoldable pub mark_task : TaskStatus → List Task → List Task
mark_task status = update_first is_unfinished_task (λ task. record task { status = some status })

unfoldable pub epics_unfinished : List Epic → List Epic
epics_unfinished = select is_unfinished_epic

unfoldable pub finish_epic : List Epic → List Epic
finish_epic = update_first is_unfinished_epic (λ epic. record epic { completed = true })
