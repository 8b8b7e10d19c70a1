-- ===== src/ErrorHandler.antt =====
-- class ErrorHandler of core/agents/error_handler.py. The answer of the user and the text of the LLM
-- are arguments; the current state is read and the next one changed.
pub mod Recovery
use Prim.Native.String
use gpt_pilot.Prelude.{
  ℕ, String, Bool, true, false, ◌||◌, Option, none, some, List, [], ◌∷◌, ◌++◌, ◌==◌, string_eq,
  select, if◌then◌else◌,
}
use gpt_pilot.Result.{Result, ok, raise, value_error, attribute_error, ◌>>=◌, ◌>>◌, refuse_if}
use gpt_pilot.Records.{Iteration, IterationStatus, Step}
use gpt_pilot.ProjectState.{ProjectState, current_step}
use gpt_pilot.Agents.{AgentClass, AgentResponse, respond_done, respond_exit}

-- `details` of the error of an Executor: the entry that decides something is the command.
pub record CommandDetails : Type 0 where
  pub cmd : String

-- The answer to "Can I debug why this command failed?"
pub record Confirm : Type 0 where
  pub cancelled : Bool
  pub button : String

-- The iteration for the Developer, with the description that the LLM gave.
abbrev pub solution : String → String → Iteration
solution cmd description = record {
  user_feedback = some (String.◌++◌ "Error running command: " cmd);
  description = some description;
  alternative_solutions = [];
  attempts = 1;
  status = some IterationStatus.implement_solution;
  bug_hunting_cycles = some [];
  bug_reproduction_description = none;
  initial_explanation = none;
}

-- `[s for s in self.current_state.steps if s.get("completed") is True]`
unfoldable pub finished_steps : List Step → List Step
finished_steps = select (λ step. step.completed)

unfoldable pub debug_command : String → String → ProjectState → ProjectState → Result ProjectState
debug_command cmd llm_response current next = elim (current_step current) [
  | none ↦ raise (value_error "None is not in list")
  | some step ↦ ok (record next {
    iterations = current.iterations ++ solution cmd llm_response ∷ [];
    steps = finished_steps current.steps;
  })
]

unfoldable pub handle_command_error :
    String
    → Option CommandDetails
    → Confirm
    → String
    → ProjectState
    → ProjectState
    → Result (AgentResponse × ProjectState)
handle_command_error message none confirm llm_response current next = raise attribute_error
handle_command_error message (some details) confirm llm_response current next = do
  refuse_if (message == "") (value_error "No error message provided in command error response")
  refuse_if (details.cmd == "")
      (value_error "No command provided in command error response details")
  if confirm.cancelled || confirm.button == "no"
      then ok (respond_done AgentClass.error_handler, next)
      else do
        next' ← debug_command details.cmd llm_response current next
        ok (respond_done AgentClass.error_handler, next')

-- `run`: the previous response, and the details in its data.
unfoldable pub handle_error :
    Option AgentResponse
    → Option CommandDetails
    → Confirm
    → String
    → ProjectState
    → ProjectState
    → Result (AgentResponse × ProjectState)
handle_error none details confirm llm_response current next =
    ok (respond_done AgentClass.error_handler, next)
handle_error (some error) details confirm llm_response current next = elim error.agent [
  | AgentClass.spec_writer ↦ ok (respond_exit AgentClass.error_handler, next)
  | AgentClass.executor ↦
      handle_command_error error.message details confirm llm_response current next
  | _ ↦ ok (respond_exit AgentClass.error_handler, next)
]
