-- ===== src/Tests/Commands.antt =====
-- A command that fails, and the agents that finish a step.
use gpt_pilot.Prelude.{
  ℕ, String, ◌≡◌, refl, false, Option, none, some, [], ◌∷◌, ◌++◌, string_eq, option_eq, true,
  select, update_first,
}
use gpt_pilot.Result.{Result, ok, raise, value_error}
use gpt_pilot.ProjectState.{
  ProjectState, current_step, unfinished_steps, unfinished_iterations, complete_step, steps_of_type,
  steps_unfinished,
}
use gpt_pilot.Agents.{AgentClass, AgentResponse, respond_done}
use gpt_pilot.Orchestrator.{create_agent, one}
use gpt_pilot.ErrorHandler.{Confirm, CommandDetails, handle_error, solution}
use gpt_pilot.BugHunter.{UserInput}
use gpt_pilot.Workers.{
  CommandOptions, CommandAnalysis, execute, complete_command, handle_legacy, command_name,
  first_chars,
}
use gpt_pilot.Workers.Commands.{execute-handle_error}
use gpt_pilot.Tests.Fixtures.{working, command_step, save_step}
use gpt_pilot.Prelude.Strings.{size}
use gpt_pilot.Records.Work.{finish_step_of_type}

abbrev build : CommandOptions
build = record { command = "make"; timeout = 60 }

abbrev changed : UserInput
changed = record { text = some "make all"; button = none; cancelled = false }

abbrev fails : String → ℕ → Result CommandAnalysis
fails cmd timeout = ok (record { analysis = "No such target"; success = false })

abbrev agrees : Confirm
agrees = record { cancelled = false; button = "yes" }

abbrev after_make : ProjectState
after_make = record working {
  steps = record command_step { completed = true } ∷ save_step ∷ [];
  action = some "Run \"make\"";
}

make_completed : complete_command "Run \"" "make" working ≡ ok after_make
unfolding complete_command complete_step finish_step_of_type string_eq option_eq size
    steps_unfinished select steps_of_type update_first
make_completed = refl

execute-handle_error_example :
    (response : AgentResponse) × (details : Option CommandDetails) × (handled : ProjectState)
    × (execute fails (some build) changed working ≡ ok ((response, details), after_make))
    × (create_agent working (some response)
        ≡ ok (
            one (record {
              class = AgentClass.error_handler;
              step = none;
              prev_response = some response;
            })))
    × (handle_error (some response) details agrees "Use make" working working
        ≡ ok (respond_done AgentClass.error_handler, handled))
    × (unfinished_steps handled ≡ [])
    × (unfinished_iterations handled
        ≡ unfinished_iterations working ++ solution "make all" "Use make" ∷ [])
unfolding string_eq option_eq current_step steps_unfinished select
execute-handle_error_example =
    execute-handle_error fails build changed "make all"
      (record { analysis = "No such target"; success = false }) working after_make working working
      working command_step "Use make" agrees refl refl refl refl make_completed refl refl refl refl

-- An unknown reason is refused.
unknown_reason :
    handle_legacy "sing" working
    ≡ raise (value_error "Unknown reason for calling Legacy Handler with data: ")
unfolding handle_legacy string_eq
unknown_reason = refl

long_name :
    command_name "npm install --save-dev typescript jest" ≡ "npm install --save-dev typescr..."
unfolding size first_chars
long_name = refl
