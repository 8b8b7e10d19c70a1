-- ===== src/Tests/Bugs.antt =====
-- A bug that the user reports, with and without logs.
use gpt_pilot.Prelude.{
  ℕ, String, ◌≡◌, refl, false, none, some, [], ◌∷◌, string_eq, option_eq, select, true, Bool,
  Option, if◌then◌else◌, ◌==◌, arith,
}
use gpt_pilot.Result.{ok, raise, key_error}
use gpt_pilot.ProjectState.{
  ProjectState, current_iteration, current_task, unfinished_iterations, tasks_unfinished,
  iterations_unfinished,
}
use gpt_pilot.Agents.{AgentClass, respond_done}
use gpt_pilot.BugHunter.{UserInput, Answers, Ending, hunt_bug, ask_user_to_test}
use gpt_pilot.BugHunter.Outcomes.{Tested}
use gpt_pilot.Troubleshooter.{
  Texts, Questions, Feedback, create_iteration, get_user_feedback, new_iteration, no_feedback, told,
  new_status, get_task_convo,
}
use gpt_pilot.Troubleshooter.Bugs.{create_iteration-hunt_bug, missing_key}
use gpt_pilot.Tests.Fixtures.{working, task_a, task_b}
use gpt_pilot.BugHunter.Testing.{status_after, ask_user_to_test-Tested}
use gpt_pilot.Records.{Iteration, IterationStatus, Solution, Task}
use gpt_pilot.BugHunter.Missing.{LastUnfinished}
use gpt_pilot.ProblemSolver.{possible_solutions, solve_problem}
use gpt_pilot.ProblemSolver.Choosing.{solve_problem-same}

abbrev pressed : String → UserInput
pressed name = record { text = none; button = some name; cancelled = false }

abbrev said : String → UserInput
said text = record { text = some text; button = none; cancelled = false }

abbrev changed_mind : Questions
changed_mind = record {
  response = pressed "change";
  description = pressed "back";
  backend_logs = none;
  frontend_logs = none;
  actions = [];
}

abbrev reports_bug : Questions
reports_bug = record {
  response = pressed "bug";
  description = said "It crashes";
  backend_logs = some "Error";
  frontend_logs = none;
  actions = record { add_files = "a.js" ∷ "lost.js" ∷ []; remove_files = [] } ∷ [];
}

abbrev crash : Feedback
crash = record no_feedback {
  bug_report = some "It crashes";
  backend_logs = some "Error";
  actions = some (record { add_files = "a.js" ∷ "lost.js" ∷ []; remove_files = [] } ∷ []);
}

abbrev texts : Texts
texts = record {
  reviewed = λ (n : ℕ). "Task reviewed";
  alternative = λ (n : ℕ). "Alternative solution";
}

-- The list of the test's steps is JSON, and nothing else is.
abbrev is_json : String → Bool
is_json text = text == "[{}]"

abbrev tested : Task
tested = record task_a { test_instructions = some "[{}]"; instructions = some (some "Do it") }

abbrev testable : ProjectState
testable = record working {
  tasks = tested ∷ task_b ∷ [];
  iterations = [];
  run_command = some "npm start";
}

abbrev after_report : ProjectState
after_report = record testable { iterations = new_iteration crash ∷ [] }

abbrev user_answers : Answers
user_answers = record {
  reproduction = "Open the app";
  test = record {
    is_fixed = pressed "no";
    feedback = said "It still crashes";
    backend_logs = none;
    frontend_logs = none;
  };
  instructions = "Fix it";
  identified = false;
  initial_explanation = "";
  rounds = [];
  ending = Ending.done;
}

create_iteration-hunt_bug_example :
    (current' next' : ProjectState) × (create_iteration texts "" none
        (changed_mind ∷ reports_bug ∷ [])
        testable
        testable
      ≡ some (ok (respond_done AgentClass.troubleshooter, current', next')))
    × (current_iteration next' ≡ some (new_iteration crash))
    × (hunt_bug is_json user_answers next' after_report ≡ raise (key_error (missing_key crash)))
unfolding get_user_feedback told string_eq option_eq current_task unfinished_iterations
    tasks_unfinished select iterations_unfinished get_task_convo
create_iteration-hunt_bug_example =
    create_iteration-hunt_bug is_json texts "" none (changed_mind ∷ reports_bug ∷ []) tested crash
      "It crashes" testable testable after_report user_answers refl refl refl refl refl refl refl
      refl refl

abbrev described_bug : Iteration
described_bug = record (new_iteration crash) { bug_reproduction_description = some "Open the app" }

abbrev described_state : ProjectState
described_state = record testable { iterations = described_bug ∷ [] }

abbrev described_last : LastUnfinished described_bug described_state
unfolding new_iteration new_status select
described_last = record { others = []; finished = refl; iterations = refl; unfinished = refl }

ask_user_to_test-Tested_example :
    (s : ProjectState) × (ask_user_to_test user_answers.test false true described_bug
        described_state
      ≡ ok (some (respond_done AgentClass.bug_hunter), s))
    × Tested described_bug [] (status_after user_answers.test true) s
unfolding described_last
ask_user_to_test-Tested_example =
    ask_user_to_test-Tested user_answers.test true described_bug described_state "Open the app"
      described_last refl refl

-- The bug is not fixed, so the hunt goes on.
asked_again : status_after user_answers.test true ≡ IterationStatus.hunting_for_bug
unfolding string_eq option_eq
asked_again = refl

-- The first of three solutions was tried; now the user chooses the first of the others.
abbrev idea : String → Bool → Solution
idea description tried = record { user_feedback = none; description = description; tried = tried }

abbrev puzzling : Iteration
puzzling = record described_bug {
  status = some IterationStatus.problem_solver;
  alternative_solutions = idea "a" true ∷ idea "b" false ∷ idea "c" false ∷ [];
}

abbrev puzzled : ProjectState
puzzled = record testable { iterations = puzzling ∷ [] }

abbrev read_number : String → Option ℕ
read_number name = if name == "0" then some 0 else none

solve_problem-same_example :
    (next' : ProjectState) × (it' : Iteration) × (solve_problem read_number []
        (pressed "0")
        "Do b"
        puzzled
        puzzled
      ≡ ok (respond_done AgentClass.problem_solver, next'))
    × (current_iteration next' ≡ some it')
    × (it'.description ≡ some "Do b")
    × (it'.alternative_solutions ≡ puzzling.alternative_solutions)
unfolding current_iteration possible_solutions string_eq select iterations_unfinished
solve_problem-same_example =
    solve_problem-same read_number [] (pressed "0") "Do b" 0 puzzling (idea "a" true ∷ [])
      (idea "b" false ∷ idea "c" false ∷ []) puzzled puzzled refl
      (record { others = []; finished = refl; iterations = refl; unfinished = refl }) refl refl refl
      (record { name = "0"; button = refl; not_none = refl; not_cancelled = refl; number = refl })
      (omega arith) (omega arith)
