-- ===== src/ProjectState.antt =====
-- class ProjectState of core/db/models/project_state.py: one step of a project, its queues of
-- epics, tasks, steps and iterations, and the files. A method that mutates `self` returns the new
-- record; `has_next` says that "next_state" is in `self.__dict__`, which makes a state read-only.
pub mod Completion
pub mod Files
pub mod Operations
pub mod Rounds
pub mod Iterations
unfoldable pub use gpt_pilot.Records.Rows.{
  empty_specification, empty_knowledge_base, clone_file, find_file, content_or_empty, set_content,
  store_file,
}
unfoldable pub use gpt_pilot.Records.Work.{
  is_unfinished_step, unfinished_iteration_status, is_unfinished_iteration, unfinished_task_status,
  is_unfinished_task, is_unfinished_epic, steps_unfinished, steps_of_type, is_unfinished_of_type,
  finish_step_of_type, iterations_unfinished, finish_iteration, tasks_unfinished, mark_task,
  epics_unfinished, finish_epic,
}
use gpt_pilot.Prelude.{
  ℕ, ◌+◌, String, Bool, true, false, not, ◌&&◌, ◌||◌, Option, none, some, List, [], ◌∷◌, ◌++◌, map,
  ◌==◌, string_eq, nat_eq, option_eq, contains, length, head?, is_empty, select, any, find?,
  update_first, ltb, if◌then◌else◌,
}
use gpt_pilot.Prelude.Dict.{Dict, insert, is_some, keys}
use gpt_pilot.Result.{Result, ok, value_error, index_error, ◌>>=◌, ◌>>◌, refuse_if}
use gpt_pilot.Records.{
  TaskStatus, Task, IterationStatus, Iteration, Step, Epic, File, FileContent, Specification,
  KnowledgeBase,
}

pub record ProjectState : Type 0 where
  pub id : Option ℕ
  pub branch_id : ℕ
  pub step_index : ℕ
  pub has_next : Bool
  pub epics : List Epic
  pub tasks : List Task
  pub steps : List Step
  pub iterations : List Iteration
  pub knowledge_base : KnowledgeBase
  pub files : List File
  pub relevant_files : Option (List String)
  pub modified_files : Dict String
  pub docs : Option (List String)
  pub web : Option (List String)
  pub run_command : Option String
  pub action : Option String
  pub specification : Specification

unfoldable pub unfinished_steps : ProjectState → List Step
unfinished_steps s = steps_unfinished s.steps

unfoldable pub current_step : ProjectState → Option Step
unfolding unfinished_steps
current_step s = head? (unfinished_steps s)

unfoldable pub unfinished_iterations : ProjectState → List Iteration
unfinished_iterations s = iterations_unfinished s.iterations

unfoldable pub current_iteration : ProjectState → Option Iteration
unfolding unfinished_iterations
current_iteration s = head? (unfinished_iterations s)

unfoldable pub unfinished_tasks : ProjectState → List Task
unfinished_tasks s = tasks_unfinished s.tasks

unfoldable pub current_task : ProjectState → Option Task
unfolding unfinished_tasks
current_task s = head? (unfinished_tasks s)

unfoldable pub unfinished_epics : ProjectState → List Epic
unfinished_epics s = epics_unfinished s.epics

unfoldable pub current_epic : ProjectState → Option Epic
unfolding unfinished_epics
current_epic s = head? (unfinished_epics s)

-- The keys of `modified_files` and the relevant files, as one set; only membership is read.
unfoldable pub relevant_file_objects : ProjectState → List File
relevant_file_objects s =
    let relevant : List String = elim s.relevant_files [ none ↦ [] | some l ↦ l ] in
    select (λ f. contains (relevant ++ keys s.modified_files) f.path) s.files

unfoldable pub create_initial_state : ℕ → ProjectState
create_initial_state branch_id = record {
  id = none;
  branch_id = branch_id;
  step_index = 1;
  has_next = false;
  epics = [];
  tasks = [];
  steps = [];
  iterations = [];
  knowledge_base = empty_knowledge_base;
  files = [];
  relevant_files = none;
  modified_files = [];
  docs = none;
  web = none;
  run_command = none;
  action = none;
  specification = empty_specification;
}

-- The state itself, which now has a next one, and the next one.
unfoldable pub create_next_state : ProjectState → Result (ProjectState × ProjectState)
create_next_state s = do
  refuse_if (not (is_some s.id)) (value_error "Cannot create next state for unsaved state.")
  refuse_if s.has_next (value_error "Next state already exists for state with id=")
  ok (
    record s { has_next = true },
    record s {
      id = none;
      step_index = s.step_index + 1;
      has_next = false;
      files = map clone_file s.files;
      action = none;
    },
  )

abbrev pub refuse_read_only : ProjectState → Result (Unit {0})
refuse_read_only s =
    refuse_if s.has_next (value_error "Current state is read-only (already has a next state).")

unfoldable pub get_steps_of_type : ProjectState → String → List Step
unfolding unfinished_steps
get_steps_of_type s step_type = steps_of_type step_type (unfinished_steps s)

-- `[0]` of the steps of the type refers to a dictionary of `self.steps`.
unfoldable pub complete_step : ProjectState → String → Result ProjectState
unfolding get_steps_of_type
complete_step s step_type = do
  refuse_if (is_empty (unfinished_steps s))
      (value_error "There are no unfinished steps to complete")
  refuse_read_only s
  refuse_if (is_empty (get_steps_of_type s step_type)) index_error
  ok (record s { steps = finish_step_of_type step_type s.steps })

unfoldable pub set_current_task_status : TaskStatus → ProjectState → Result ProjectState
unfolding current_task
set_current_task_status status s = do
  refuse_if (not (is_some (current_task s)))
      (value_error "There is no current task to set status for")
  refuse_read_only s
  ok (record s { tasks = mark_task status s.tasks })

unfoldable pub complete_epic : ProjectState → Result ProjectState
unfolding unfinished_epics
complete_epic s = do
  refuse_if (is_empty (unfinished_epics s))
      (value_error "There are no unfinished epics to complete")
  refuse_read_only s
  ok (record s { epics = finish_epic s.epics; tasks = [] })

abbrev pub clear_task_work : ProjectState → ProjectState
clear_task_work s = record s {
  steps = [];
  iterations = [];
  relevant_files = none;
  modified_files = [];
  docs = none;
  web = none;
}

unfoldable pub complete_task : ProjectState → Result ProjectState
unfolding set_current_task_status unfinished_tasks complete_epic
complete_task s = do
  refuse_if (is_empty (unfinished_tasks s))
      (value_error "There are no unfinished tasks to complete")
  refuse_read_only s
  s' ← set_current_task_status TaskStatus.done s
  let t = clear_task_work s'
  if is_empty (unfinished_tasks t) && not (is_empty (unfinished_epics t))
      then complete_epic t
      else ok t

unfoldable pub complete_iteration : ProjectState → Result ProjectState
unfolding unfinished_iterations
complete_iteration s = do
  refuse_if (is_empty (unfinished_iterations s))
      (value_error "There are no unfinished iterations to complete")
  refuse_read_only s
  ok (record s {
    iterations = finish_iteration s.iterations;
    relevant_files = none;
    modified_files = [];
  })

unfoldable pub get_file_by_path : ProjectState → String → Option File
get_file_by_path s path = find_file path s.files

unfoldable pub get_file_content_by_path : ProjectState → String → String
unfolding get_file_by_path
get_file_content_by_path s path = content_or_empty (get_file_by_path s path)

abbrev pub or_empty : Option (List String) → List String
or_empty none = []
or_empty (some l) = l

unfoldable pub save_file : ProjectState → String → FileContent → Bool → Result ProjectState
unfolding get_file_content_by_path
save_file s path content external = do
  refuse_read_only s
  let original_content = get_file_content_by_path s path
  let relevant = or_empty s.relevant_files
  ok (record s {
    files = store_file path content s.files;
    modified_files =
        if not (contains (keys s.modified_files) path) && not external
        then insert path original_content s.modified_files
        else s.modified_files;
    relevant_files = some (if contains relevant path then relevant else relevant ++ path ∷ []);
  })

-- The rows of the table that `delete_after` leaves.
unfoldable pub delete_after : ProjectState → List ProjectState → List ProjectState
delete_after s =
    select (λ (row : ProjectState).
      not (row.branch_id == s.branch_id && ltb s.step_index row.step_index))

unfoldable pub get_last_iteration_steps : ProjectState → List Step
get_last_iteration_steps s =
    let li = select (λ (step : Step). step.iteration_index == some (length s.iterations)) s.steps in
    if is_empty li then s.steps else li

unfoldable pub get_source_index : ProjectState → String → ℕ
unfolding get_last_iteration_steps
get_source_index s source =
    if source == "app" || source == "feature"
    then length (select (λ (epic : Epic). epic.source == some source) s.epics)
    else if source == "troubleshooting"
    then length s.iterations
    else if source == "review"
    then length
        (select (λ (step : Step). step.type == some "review_task") (get_last_iteration_steps s))
    else 1

unfoldable pub has_frontend : ProjectState → Bool
has_frontend s = any (λ (epic : Epic). epic.source == some "frontend") s.epics

unfoldable pub is_feature : ProjectState → Bool
unfolding current_epic
is_feature s = elim (current_epic s) [ none ↦ false | some epic ↦ epic.source == some "feature" ]
