-- ===== src/Workers/Commands.antt =====
-- A command from core/agents/executor.py to the agent that comes next.
use gpt_pilot.Prelude.{
  ℕ, String, ◌≡◌, refl, false, ◌||◌, Option, none, some, [], ◌∷◌, ◌++◌, ◌==◌, string_eq, option_eq,
  arith,
}
use gpt_pilot.Result.{Result, ok}
use gpt_pilot.ProjectState.{ProjectState, current_step, unfinished_steps, unfinished_iterations}
use gpt_pilot.Records.{Step}
use gpt_pilot.Agents.{AgentClass, AgentResponse, respond_done, respond_error}
use gpt_pilot.Orchestrator.{create_agent, one, routed, agent_for_response}
use gpt_pilot.ErrorHandler.{Confirm, CommandDetails, handle_error, solution}
use gpt_pilot.ErrorHandler.Recovery.{handle_command_error_lem}
use gpt_pilot.BugHunter.{UserInput}
use gpt_pilot.Workers.{CommandOptions, CommandAnalysis, command_to_run, execute, complete_command}

execute-failed :
    (outcome : String → ℕ → Result CommandAnalysis) (options : CommandOptions) (confirm : UserInput)
    (cmd : String) (a : CommandAnalysis) (next next' : ProjectState)
    → (confirm.button == some "no") ≡ false
    → command_to_run options.command confirm ≡ ok cmd
    → outcome cmd options.timeout ≡ ok a
    → a.success ≡ false
    → complete_command "Run \"" options.command next ≡ ok next'
    → execute outcome (some options) confirm next
      ≡ ok ((respond_error AgentClass.executor a.analysis, some (record { cmd = cmd })), next')
unfolding execute
execute-failed outcome options confirm cmd a next next' runs chosen ran failed completed =
    ground (arith, runs, chosen, ran, failed, completed)

create_agent-error :
    (s : ProjectState) (agent : AgentClass) (message : String)
    → create_agent s (some (respond_error agent message))
      ≡ ok (
          one (record {
            class = AgentClass.error_handler;
            step = none;
            prev_response = some (respond_error agent message);
          }))
unfolding create_agent routed agent_for_response
create_agent-error s agent message = refl

-- A command that the user lets run, and that fails, is completed in the next state of the Executor,
-- whose response makes the orchestrator create an ErrorHandler in any state. If neither the command nor
-- its analysis is empty, and the user lets it, that handler debugs this command: in a state with a
-- current step it does not raise, leaves no step unfinished, and adds a solution that names the
-- command.
pub execute-handle_error :
    (outcome : String → ℕ → Result CommandAnalysis) (options : CommandOptions) (confirm : UserInput)
    (cmd : String) (a : CommandAnalysis) (next next' : ProjectState)
    (s current after : ProjectState) (step : Step) (llm_response : String) (debug : Confirm)
    → (confirm.button == some "no") ≡ false
    → command_to_run options.command confirm ≡ ok cmd
    → outcome cmd options.timeout ≡ ok a
    → a.success ≡ false
    → complete_command "Run \"" options.command next ≡ ok next'
    → (a.analysis == "") ≡ false
    → (cmd == "") ≡ false
    → (debug.cancelled || debug.button == "no") ≡ false
    → current_step current ≡ some step
    → (response : AgentResponse) × (details : Option CommandDetails) × (handled : ProjectState)
      × (execute outcome (some options) confirm next ≡ ok ((response, details), next'))
      × (create_agent s (some response)
          ≡ ok (
              one (record {
                class = AgentClass.error_handler;
                step = none;
                prev_response = some response;
              })))
      × (handle_error (some response) details debug llm_response current after
          ≡ ok (respond_done AgentClass.error_handler, handled))
      × (unfinished_steps handled ≡ [])
      × (unfinished_iterations handled
          ≡ unfinished_iterations current ++ solution cmd llm_response ∷ [])
unfolding handle_error
execute-handle_error outcome options confirm cmd a next next' s current after step llm_response
      debug runs chosen ran failed completed analysed named agreed at =
    let (handled, e, no_steps, iterations) =
      handle_command_error_lem a.analysis llm_response (record { cmd = cmd }) debug current after
        step analysed named agreed at in
    (
      respond_error AgentClass.executor a.analysis,
      some (record { cmd = cmd }),
      handled,
      execute-failed outcome options confirm cmd a next next' runs chosen ran failed completed,
      create_agent-error s AgentClass.executor a.analysis,
      e,
      no_steps,
      iterations,
    )
