-- ===== src/Tests/Plans.antt =====
-- A development plan with two sub epics.
use gpt_pilot.Prelude.{
  ℕ, String, ◌≡◌, refl, some, [], ◌∷◌, List, string_eq, option_eq, nat_eq, select,
}
use gpt_pilot.Result.{ok}
use gpt_pilot.Records.{Task}
use gpt_pilot.ProjectState.{ProjectState, unfinished_epics, epics_unfinished}
use gpt_pilot.TechLead.{
  EditedEpic, update_epics_and_tasks, updated_plan, new_task, same_task, existing_task,
  TaskStatus-discrete, task_status_eq, updated_tasks,
}
use gpt_pilot.TechLead.Editing.{update_epics_and_tasks-same}
use gpt_pilot.Tests.Fixtures.{working, task_a, task_b}

abbrev second_task : Task
second_task = record task_b { sub_epic_id = some 2 }

abbrev planned : ProjectState
planned = record working { tasks = task_a ∷ second_task ∷ [] }

abbrev unedited : List EditedEpic
unedited =
    record { description = "Back end"; tasks = task_a ∷ [] }
    ∷ record { description = "Front end"; tasks = second_task ∷ [] }
    ∷ []

abbrev unique : ℕ → String
unique n = "new"

update_epics_and_tasks-same_example :
    (next' : ProjectState) × (update_epics_and_tasks unique unedited planned ≡ ok next')
    × (next'.tasks ≡ planned.tasks)
unfolding unfinished_epics string_eq epics_unfinished select
update_epics_and_tasks-same_example =
    update_epics_and_tasks-same unique unedited planned refl refl (refl, (refl, tt))
      ((refl, tt), ((refl, tt), tt))

-- A task with another description is a new one, and a task that the user left out is gone.
edited :
    updated_plan unique planned.tasks 1 [] (
      record { description = "All"; tasks = record task_a { description = "c" } ∷ second_task ∷ [] }
      ∷ [])
    ≡ new_task "new" "c" 1 ∷ record second_task { sub_epic_id = some 1 } ∷ []
unfolding string_eq option_eq nat_eq same_task existing_task updated_plan updated_tasks
    task_status_eq TaskStatus-discrete
edited = refl
