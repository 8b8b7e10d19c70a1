-- ===== src/Troubleshooter/Dialogue.antt =====
-- `get_user_feedback` of core/agents/troubleshooter.py and `get_relevant_files` of
-- core/agents/mixins.py.
use gpt_pilot.Prelude.{
  String, Bool, true, false, not, ◌||◌, Option, none, some, List, [], ◌∷◌, ◌++◌, ◌==◌, string_eq,
  option_eq, select, contains, map, if◌then◌else◌,
}
use gpt_pilot.Records.{File}
use gpt_pilot.ProjectState.{ProjectState}
use gpt_pilot.BugHunter.{UserInput}

-- What the LLM asks for in one round of `get_relevant_files`.
pub record FilesAction : Type 0 where
  pub add_files : List String
  pub remove_files : List String

-- The set of relevant files, in the order in which they were added.
abbrev pub add_new : List String → List String → List String
add_new relevant [] = relevant
add_new relevant (f ∷ fs) =
    add_new (if contains relevant f then relevant else relevant ++ f ∷ []) fs

unfoldable pub chosen_files : List FilesAction → List String → List String
chosen_files [] relevant = relevant
chosen_files (a ∷ actions) relevant =
    chosen_files actions
      (select (λ (f : String). not (contains a.remove_files f)) (add_new relevant a.add_files))

unfoldable pub existing_files : ProjectState → List String → List String
existing_files s = select (λ (path : String). contains (map (λ (f : File). f.path) s.files) path)

-- The current and the next state with their relevant files.
abbrev pub get_relevant_files :
    List FilesAction → ProjectState → ProjectState → ProjectState × ProjectState
get_relevant_files actions current next =
    let relevant = some (existing_files current (chosen_files actions [])) in
    (record current { relevant_files = relevant }, record next { relevant_files = relevant })

-- One round of questions in `get_user_feedback`.
pub record Questions : Type 0 where
  pub response : UserInput
  pub description : UserInput
  pub backend_logs : Option String
  pub frontend_logs : Option String
  pub actions : List FilesAction

-- The result of `get_user_feedback`, and the rounds of `get_relevant_files` that it ran.
pub record Feedback : Type 0 where
  pub should_iterate : Bool
  pub is_loop : Bool
  pub bug_report : Option String
  pub change_description : Option String
  pub backend_logs : Option String
  pub frontend_logs : Option String
  pub actions : Option (List FilesAction)

abbrev pub no_feedback : Feedback
no_feedback = record {
  should_iterate = true;
  is_loop = false;
  bug_report = none;
  change_description = none;
  backend_logs = none;
  frontend_logs = none;
  actions = none;
}

-- What one round ends the loop with, if it does.
unfoldable pub told : Questions → Option Feedback
told q =
    if q.response.button == some "continue" || q.response.cancelled
    then some (record no_feedback { should_iterate = false })
    else if q.response.button == some "change"
    then (if q.description.button == some "back"
        then none
        else some (record no_feedback {
          change_description = q.description.text;
          actions = some q.actions;
        }))
    else if q.response.button == some "bug"
    then (if q.description.button == some "back"
        then none
        else some (record no_feedback {
          bug_report = q.description.text;
          backend_logs = q.backend_logs;
          frontend_logs = q.frontend_logs;
          actions = some q.actions;
        }))
    else none

-- `none` while the user is still being asked.
unfoldable pub get_user_feedback : List Questions → Option Feedback
get_user_feedback [] = none
get_user_feedback (q ∷ qs) =
    let rest = get_user_feedback qs in elim (told q) [ none ↦ rest | some f ↦ some f ]
