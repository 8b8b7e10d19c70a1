-- ===== src/Records.antt =====
-- The dictionaries and rows that make up a project state: core/db/models/project_state.py (the
-- statuses and the shape of steps, tasks, epics and iterations), file.py, file_content.py and
-- specification.py. A dictionary is a record of the keys that the program reads.
pub mod Work
pub mod Rows
use gpt_pilot.Prelude.{ℕ, String, Bool, Option, List}
use gpt_pilot.Prelude.Dict.{Dict}

pub data TaskStatus : Type 0 where
  todo in_progress reviewed documented epic_updated done skipped : TaskStatus

pub record Task : Type 0 where
  pub description : String
  pub status : Option TaskStatus
  pub test_instructions : Option String
  pub id : String
  -- The breakdown of the task: the key may be missing, or its value None.
  pub instructions : Option (Option String)
  pub pre_breakdown_testing_instructions : Option String
  pub sub_epic_id : Option ℕ
  -- The list as JSON.
  pub related_api_endpoints : Option String

pub data IterationStatus : Type 0 where
  hunting_for_bug awaiting_logging awaiting_user_test awaiting_bug_fix : IterationStatus
  awaiting_bug_reproduction implement_solution find_solution problem_solver : IterationStatus
  new_feature_requested start_pair_programming done : IterationStatus

-- An entry of `bug_hunting_cycles`.
pub record Cycle : Type 0 where
  pub human_readable_instructions : Option String
  pub fix_attempted : Option Bool
  pub backend_logs : Option String
  pub frontend_logs : Option String
  pub user_feedback : Option String

-- An entry of `alternative_solutions`, as ProblemSolver writes it.
pub record Solution : Type 0 where
  pub user_feedback : Option String
  pub description : String
  pub tried : Bool

pub record Iteration : Type 0 where
  pub user_feedback : Option String
  pub description : Option String
  pub alternative_solutions : List Solution
  pub attempts : ℕ
  pub status : Option IterationStatus
  pub bug_hunting_cycles : Option (List Cycle)
  pub bug_reproduction_description : Option String
  pub initial_explanation : Option String

pub record Step : Type 0 where
  pub type : Option String
  pub completed : Bool
  pub iteration_index : Option ℕ
  pub source : Option String
  -- `step["save_file"]["path"]`
  pub save_path : Option String
  pub related_api_endpoints : List String

-- An entry of `sub_epics`.
pub record SubEpic : Type 0 where
  pub id : ℕ
  pub description : String

pub record Epic : Type 0 where
  pub name : String
  pub source : Option String
  pub completed : Bool
  pub description : String
  pub complexity : Option String
  pub sub_epics : List SubEpic

pub record FileContent : Type 0 where
  pub hash : String
  pub content : String

pub record File : Type 0 where
  pub path : String
  pub content : FileContent
  pub meta : Dict String

pub record Specification : Type 0 where
  pub original_description : Option String
  pub description : String
  pub template_summary : Option String
  pub architecture : String
  pub system_dependencies : List String
  pub package_dependencies : List String
  pub templates : Option (Dict String)
  pub complexity : String
  pub example_project : Option String

-- `knowledge_base["apis"]` and `knowledge_base["utility_functions"]`, as StateManager writes them.
pub record Location : Type 0 where
  pub path : String
  pub line : ℕ

pub record Api : Type 0 where
  pub description : String
  pub endpoint : String
  pub request : String
  pub response : String
  pub frontend : Location
  pub backend : Option Location
  pub status : String

pub record UtilityFunction : Type 0 where
  pub function_name : String
  pub file : String
  pub return_value : String
  pub input_value : String
  pub status : String

pub record KnowledgeBase : Type 0 where
  pub pages : Option (List String)
  pub apis : Option (List Api)
  pub utility_functions : Option (List UtilityFunction)
