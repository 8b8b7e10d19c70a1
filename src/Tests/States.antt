-- ===== src/Tests/States.antt =====
-- ProjectState on concrete states.
use gpt_pilot.Prelude.{
  suc, ◌+◌, ◌≤◌, ◌≡◌, ◌≢◌, refl, true, false, none, some, [], ◌∷◌, length, tail, string_eq,
  option_eq, select, update_first, if◌then◌else◌, contains, is_empty, find?,
}
use gpt_pilot.Prelude.Dict.{lookup, insert}
use gpt_pilot.Result.{ok, raise, value_error, index_error}
use gpt_pilot.ProjectState.{
  ProjectState, create_initial_state, create_next_state, complete_step, complete_task,
  complete_iteration, save_file, unfinished_tasks, unfinished_epics, unfinished_steps,
  unfinished_iterations, get_file_by_path, get_file_content_by_path, or_empty, steps_of_type,
  tasks_unfinished, steps_unfinished, mark_task, iterations_unfinished, find_file, epics_unfinished,
  finish_step_of_type, finish_iteration, store_file, set_content,
}
use gpt_pilot.ProjectState.Completion.{
  complete_task_lem, complete_step_lem, complete_iteration_lem, complete_step-index_error,
  drop_first_of_type,
}
use gpt_pilot.ProjectState.Rounds.{complete_tasks, complete_tasks_lem}
use gpt_pilot.ProjectState.Operations.{
  Operation, run, run-frozen, run-Keeps, Keeps, create_next_state_lem, create_next_state_once,
  Reachable, Reachable-UniquePaths,
}
use gpt_pilot.ProjectState.Files.{
  UniquePaths, get_file_by_path-save_file, modified_files-save_file, relevant_files-save_file,
}
use gpt_pilot.StateManager.{remove_file}
use gpt_pilot.Tests.Fixtures.{working, content_of_text, task_b}

-- One unfinished task remains, and the epic stays open.
completes_one_task :
    (s : ProjectState) × (complete_task working ≡ ok s)
    × (unfinished_tasks s ≡ task_b ∷ [])
    × (length (unfinished_epics s) ≡ 1)
unfolding complete_task select update_first tasks_unfinished mark_task epics_unfinished
completes_one_task = (_, refl, refl, refl)

completes_step :
    (s : ProjectState) × (complete_step working "save_file" ≡ ok s) × (length s.steps ≡ 2)
unfolding complete_step steps_unfinished steps_of_type finish_step_of_type select update_first
    string_eq option_eq
completes_step = (_, refl, refl)

completes_iteration :
    (s : ProjectState) × (complete_iteration working ≡ ok s) × (s.relevant_files ≡ none)
unfolding complete_iteration iterations_unfinished finish_iteration select update_first
completes_iteration = (_, refl, refl)

saves_file :
    (s : ProjectState) × (save_file working "a.js" (content_of_text "two") false ≡ ok s)
    × (s.relevant_files ≡ some ("a.js" ∷ []))
unfolding save_file find_file find? store_file set_content update_first insert string_eq
saves_file = (_, refl, refl)

goes_on :
    (old : ProjectState) × (new : ProjectState) × (create_next_state working ≡ ok (old, new))
    × (new.step_index ≡ 5)
unfolding create_next_state
goes_on = (_, _, refl, refl)

two_unfinished : length (unfinished_tasks working) ≡ 2
unfolding unfinished_tasks tasks_unfinished select
two_unfinished = refl

complete_tasks_lem_example :
    (s : ProjectState) × (complete_tasks 2 working ≡ ok s)
    × (unfinished_tasks s ≡ [])
    × (unfinished_epics s ≡ tail (unfinished_epics working))
complete_tasks_lem_example = complete_tasks_lem 1 working refl two_unfinished

complete_task_lem_run :
    let s = completes_one_task.0 in
    (unfinished_tasks s ≡ tail (unfinished_tasks working))
    × (unfinished_epics s ≡ (
        if is_empty (tail (unfinished_tasks working))
        then tail (unfinished_epics working)
        else unfinished_epics working))
    × (s.steps ≡ [])
    × (s.iterations ≡ [])
    × (s.modified_files ≡ [])
    × (s.files ≡ working.files)
    × (s.has_next ≡ false)
complete_task_lem_run = complete_task_lem working completes_one_task.1

complete_step_lem_run :
    let s = completes_step.0 in
    (unfinished_steps s ≡ drop_first_of_type "save_file" (unfinished_steps working))
    × (length (unfinished_steps working) ≡ suc (length (unfinished_steps s)))
    × (length s.steps ≡ length working.steps)
complete_step_lem_run = complete_step_lem working "save_file" completes_step.1

complete_step-index_error_run : complete_step working "review_task" ≡ raise index_error
unfolding unfinished_steps steps_unfinished steps_of_type select string_eq option_eq
complete_step-index_error_run = complete_step-index_error working "review_task" refl refl refl

leaves_other_iterations :
    let s = completes_iteration.0 in
    (unfinished_iterations s ≡ tail (unfinished_iterations working))
    × (length s.iterations ≡ length working.iterations)
    × (s.tasks ≡ working.tasks)
    × (s.relevant_files ≡ none)
leaves_other_iterations = complete_iteration_lem working completes_iteration.1

frozen_state_refuses : run Operation.task goes_on.0 ≢ ok working
unfolding goes_on
frozen_state_refuses = run-frozen Operation.task goes_on.0 working refl

run-Keeps_run : Keeps working completes_one_task.0
unfolding run
run-Keeps_run = run-Keeps Operation.task working completes_one_task.0 completes_one_task.1

create_next_state_lem_run :
    (goes_on.0 ≡ record (working) { has_next = true })
    × (goes_on.1 ≡ record (working) {
      id = none;
      step_index = working.step_index + 1;
      has_next = false;
      action = none;
    })
create_next_state_lem_run = create_next_state_lem working goes_on.2

no_second_next_state :
    create_next_state goes_on.0 ≡ raise (value_error "Next state already exists for state with id=")
no_second_next_state = create_next_state_once working goes_on.2

second_state :
    (old : ProjectState) × (new : ProjectState) × (create_next_state
        (record (create_initial_state 1) { id = some 3 })
      ≡ ok (old, new))
unfolding create_next_state create_initial_state
second_state = (_, _, refl)

-- The tech lead plans an epic with two tasks in the second state, a file is saved, one task completed,
-- and the file removed.
abbrev planned : ProjectState
planned = record (second_state.1) { epics = working.epics; tasks = working.tasks }

with_file :
    (s : ProjectState) × (run (Operation.file "a.js" (content_of_text "one") false) planned ≡ ok s)
unfolding second_state run save_file
with_file = (_, refl)

with_task_done :
    (s : ProjectState) × (run Operation.task with_file.0 ≡ ok s)
    × (unfinished_tasks s ≡ task_b ∷ [])
unfolding run with_file second_state save_file complete_task select update_first tasks_unfinished
    mark_task epics_unfinished
with_task_done = (_, refl, refl)

with_task_done-Reachable : Reachable with_task_done.0
with_task_done-Reachable =
    Reachable.operation
      (Reachable.operation
        (Reachable.written (Reachable.next (Reachable.saved (Reachable.initial 1) 3) second_state.2)
          refl refl)
        (Operation.file "a.js" (content_of_text "one") false) with_file.1)
      Operation.task with_task_done.1

Reachable-UniquePaths_example :
    UniquePaths (remove_file "a.js" with_task_done.0.files) × (1 ≤ with_task_done.0.step_index)
Reachable-UniquePaths_example =
    Reachable-UniquePaths (Reachable.removed with_task_done-Reachable "a.js")

get_file_by_path-save_file_run :
    get_file_by_path saves_file.0 "b.js" ≡ get_file_by_path working "b.js"
unfolding string_eq
get_file_by_path-save_file_run =
    get_file_by_path-save_file working "b.js" "a.js" (content_of_text "two") false saves_file.1

keeps_old_content : lookup "a.js" saves_file.0.modified_files ≡ some "old"
unfolding string_eq lookup get_file_content_by_path find_file find?
keeps_old_content =
    modified_files-save_file working "a.js" "a.js" (content_of_text "two") false saves_file.1

relevant_files-save_file_run : contains (or_empty saves_file.0.relevant_files) "b.js" ≡ false
unfolding string_eq
relevant_files-save_file_run =
    relevant_files-save_file working "b.js" "a.js" (content_of_text "two") false saves_file.1
