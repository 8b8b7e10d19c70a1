-- ===== src/Troubleshooter.antt =====
-- class Troubleshooter of core/agents/troubleshooter.py. The answers of the user and the LLM
-- are arguments; the prompts are left out, except that the breakdown of the task is read for them.
pub mod Loops
pub mod Bugs
pub mod Dialogue
unfoldable pub use Dialogue.*
use gpt_pilot.Prelude.{
  ℕ, suc, ◌+◌, String, Bool, true, false, not, ◌||◌, ◌&&◌, Option, none, some, List, [], ◌∷◌, ◌++◌,
  ◌==◌, string_eq, option_eq, select, contains, map, length, leb, ltb, last?, update_last, is_empty,
  if◌then◌else◌,
}
use gpt_pilot.Prelude.Dict.{is_some}
use gpt_pilot.Prelude.Strings.{size}
use gpt_pilot.Result.{
  Result, ok, raise, value_error, index_error, attribute_error, refuse_if, subscript, ◌>>=◌,
}
use gpt_pilot.Records.{Iteration, IterationStatus, Task, TaskStatus, File, Cycle}
use gpt_pilot.Records.Work.{is_unfinished_task}
use gpt_pilot.ProjectState.{ProjectState, current_iteration, current_task, set_current_task_status}
use gpt_pilot.ProjectState.Iterations.{change_current_iteration, change_current_task}
use gpt_pilot.Agents.{AgentClass, AgentResponse, respond_done}
use gpt_pilot.BugHunter.{UserInput, is_text, empty_cycle}

-- `_get_task_convo`: the breakdown of the task becomes a message, which must not be empty.
unfoldable pub get_task_convo : Task → Result (Unit {0})
get_task_convo task = subscript "instructions" task.instructions >>= λ instructions.
    refuse_if (not (is_text instructions)) (value_error "Empty message content")

-- The command to run the application, which the LLM is asked for if there is none.
unfoldable pub get_run_command : String → ProjectState → ProjectState → Result ProjectState
get_run_command llm_response current next =
    if is_text current.run_command then ok next else elim (current_task current) [
      | none ↦ raise (value_error "None is not in list")
      | some task ↦ get_task_convo task >>= λ convo. ok (record next {
        run_command = some (if ltb (size llm_response) 5 then "" else llm_response);
      })
    ]

-- `self.current_state.tasks.index(self.current_state.current_task)`: an equal task is unfinished too.
abbrev pub task_index : List Task → ℕ
task_index [] = 0
task_index (t ∷ ts) = if is_unfinished_task t then 0 else suc (task_index ts)

-- `complete_task`, with the text of the action for a number.
unfoldable pub complete_reviewed_task :
    (ℕ → String) → ProjectState → ProjectState → Result ProjectState
complete_reviewed_task action current next = elim (current_task current) [
  | none ↦ raise (value_error "None is not in list")
  | some _ ↦
      set_current_task_status TaskStatus.reviewed
        (record next { action = some (action (task_index current.tasks + 1)) })
]

-- `bug_report or change_description`
abbrev pub or_text : Option String → Option String → Option String
or_text a b = if is_text a then a else b

unfoldable pub new_status : Feedback → IterationStatus
new_status f =
    if f.is_loop
    then IterationStatus.problem_solver
    else if is_some f.bug_report
    then IterationStatus.hunting_for_bug
    else IterationStatus.new_feature_requested

abbrev pub is_hunting : IterationStatus → Bool
is_hunting IterationStatus.hunting_for_bug = true
is_hunting _ = false

abbrev pub reported : Feedback → Cycle
reported f = record empty_cycle { backend_logs = f.backend_logs; frontend_logs = f.frontend_logs }

unfoldable pub new_iteration : Feedback → Iteration
new_iteration f = record {
  user_feedback = or_text f.bug_report f.change_description;
  description = none;
  alternative_solutions = [];
  attempts = 1;
  status = some (new_status f);
  bug_hunting_cycles = some (
      if is_hunting (new_status f) && (is_text f.backend_logs || is_text f.frontend_logs)
      then reported f ∷ []
      else []);
  bug_reproduction_description = none;
  initial_explanation = none;
}

unfoldable pub try_next_alternative_solution :
    Option String → (ℕ → String) → ProjectState → Result ProjectState
try_next_alternative_solution user_feedback action next = elim (last? next.iterations) [
  | none ↦ raise index_error
  | some i ↦ ok (record next {
    iterations =
        update_last
          (λ (i : Iteration). record i {
            description = some "";
            user_feedback = user_feedback;
            attempts = i.attempts + 1;
            status = some IterationStatus.problem_solver;
          })
          next.iterations;
    action = some (action (i.attempts + 1));
  })
]

-- The last iteration, from the third on, has other solutions to try.
abbrev pub has_alternatives : ProjectState → Bool
has_alternatives s = elim (last? s.iterations) [
  | none ↦ false
  | some i ↦ leb 3 (length s.iterations) && not (is_empty i.alternative_solutions)
]

-- The texts of the actions for the number of a task and the number of an attempt.
pub record Texts : Type 0 where
  pub reviewed : ℕ → String
  pub alternative : ℕ → String

unfoldable pub after_feedback : Texts → Feedback → ProjectState → ProjectState → Result ProjectState
after_feedback texts f current next =
    if not f.should_iterate
    then complete_reviewed_task texts.reviewed current next
    else if f.is_loop && has_alternatives current
    then try_next_alternative_solution (or_text f.bug_report f.change_description) texts.alternative
        next
    else ok (record next { iterations = current.iterations ++ new_iteration f ∷ [] })

-- The current and the next state after the files that are relevant for the feedback were chosen.
abbrev pub with_relevant_files :
    Option (List FilesAction) → ProjectState → ProjectState → ProjectState × ProjectState
with_relevant_files none current next = (current, next)
with_relevant_files (some actions) current next = get_relevant_files actions current next

-- `if not user_instructions`, with the steps that the LLM gave: none if it sees nothing to test.
unfoldable pub instruct : Texts → Option String → ProjectState → ProjectState → Result ProjectState
instruct texts none current next = complete_reviewed_task texts.reviewed current next
instruct texts (some steps) current next =
    change_current_task (λ (t : Task). record t { test_instructions = some steps }) next

abbrev pub respond :
    ProjectState → Result ProjectState → Result (AgentResponse × ProjectState × ProjectState)
respond current result =
    result >>= λ next. ok (respond_done AgentClass.troubleshooter, current, next)

-- `if not user_instructions`, and else the questions to the user.
abbrev pub ask_about :
    Texts
    → Option String
    → List Questions
    → Task
    → ProjectState
    → ProjectState
    → Option (Result (AgentResponse × ProjectState × ProjectState))
ask_about texts steps questions task current next =
    if not (is_text task.test_instructions)
    then some (respond current (get_task_convo task >>= λ convo. instruct texts steps current next))
    else elim (get_user_feedback questions) [
      | none ↦ none
      | some f ↦
          let (current1, next1) = with_relevant_files f.actions current next in
          some (respond current1 (after_feedback texts f current1 next1))
    ]

-- The response with the current and the next state; `none` while the user is still being asked.
unfoldable pub create_iteration :
    Texts
    → String
    → Option String
    → List Questions
    → ProjectState
    → ProjectState
    → Option (Result (AgentResponse × ProjectState × ProjectState))
create_iteration texts run_command steps questions current next =
    elim (get_run_command run_command current next) [
      | raise error ↦ some (raise error)
      | ok next1 ↦ elim (current_task current) [
        | none ↦ some (raise attribute_error)
        | some task ↦ ask_about texts steps questions task current next1
      ]
    ]

unfoldable pub propose_solution : String → ProjectState → Result ProjectState
propose_solution llm_solution = change_current_iteration (λ (i : Iteration). record i {
  description = some llm_solution;
  status = some IterationStatus.implement_solution;
})

abbrev pub is_to_solve : Option IterationStatus → Bool
is_to_solve (some IterationStatus.find_solution) = true
is_to_solve _ = false

-- `run`
unfoldable pub troubleshoot :
    Texts
    → String
    → String
    → Option String
    → List Questions
    → ProjectState
    → ProjectState
    → Option (Result (AgentResponse × ProjectState × ProjectState))
troubleshoot texts llm_solution run_command steps questions current next =
    elim (current_iteration current) [
      | none ↦ create_iteration texts run_command steps questions current next
      | some i ↦
          if is_to_solve i.status
          then some (respond current (propose_solution llm_solution next))
          else some (
              raise
                (value_error "There is unfinished iteration but it's not in FIND_SOLUTION state."))
    ]
