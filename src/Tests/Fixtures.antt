-- ===== src/Tests/Fixtures.antt =====
-- Concrete values for the tests.
use gpt_pilot.Prelude.{String, false, none, some, [], ◌∷◌}
use gpt_pilot.Records.{TaskStatus, Task, IterationStatus, Iteration, Step, Epic, File, FileContent}
use gpt_pilot.ProjectState.{ProjectState, empty_specification, empty_knowledge_base}
use gpt_pilot.Vfs.Memory.{MemoryVfs}

abbrev pub save_step : Step
save_step = record {
  type = some "save_file";
  completed = false;
  iteration_index = none;
  source = some "app";
  save_path = some "a.js";
  related_api_endpoints = [];
}

abbrev pub command_step : Step
command_step = record save_step { type = some "command"; save_path = none }

abbrev pub odd_step : Step
odd_step = record save_step { type = some "dance"; save_path = none }

abbrev pub task_a : Task
task_a = record {
  description = "a";
  status = some TaskStatus.todo;
  test_instructions = none;
  id = "a";
  instructions = some none;
  pre_breakdown_testing_instructions = none;
  sub_epic_id = some 1;
  related_api_endpoints = none;
}

abbrev pub task_b : Task
task_b = record {
  description = "b";
  status = some TaskStatus.todo;
  test_instructions = none;
  id = "b";
  instructions = some none;
  pre_breakdown_testing_instructions = none;
  sub_epic_id = some 1;
  related_api_endpoints = none;
}

abbrev pub epic_a : Epic
epic_a = record {
  name = "Build app";
  source = some "app";
  completed = false;
  description = "";
  complexity = none;
  sub_epics = [];
}

abbrev pub bug : Iteration
bug = record {
  user_feedback = some "bug";
  description = none;
  alternative_solutions = [];
  attempts = 1;
  status = some IterationStatus.hunting_for_bug;
  bug_hunting_cycles = some [];
  bug_reproduction_description = none;
  initial_explanation = none;
}

abbrev pub content_of_text : String → FileContent
content_of_text text = record { hash = text; content = text }

abbrev pub file_a : File
file_a = record { path = "a.js"; content = content_of_text "old"; meta = [] }

abbrev pub file_b : File
file_b = record { path = "b.js"; content = content_of_text "gone"; meta = [] }

-- One epic with two tasks, two steps and one iteration, and two files.
abbrev pub working : ProjectState
working = record {
  id = some 7;
  branch_id = 1;
  step_index = 4;
  has_next = false;
  epics = epic_a ∷ [];
  tasks = task_a ∷ task_b ∷ [];
  steps = command_step ∷ save_step ∷ [];
  iterations = bug ∷ [];
  knowledge_base = empty_knowledge_base;
  files = file_a ∷ file_b ∷ [];
  relevant_files = none;
  modified_files = [];
  docs = none;
  web = none;
  run_command = none;
  action = some "work";
  specification = record (empty_specification) { description = "an app"; architecture = "node" };
}

-- `a.js` was changed on the disk, `b.js` removed, and `c.js` is new.
abbrev pub workspace : MemoryVfs
workspace = record { files = ("c.js", "new") ∷ ("a.js", "edited") ∷ [] }
