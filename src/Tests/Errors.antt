-- ===== src/Tests/Errors.antt =====
-- A command failed, and the user lets it be debugged.
use gpt_pilot.Prelude.{◌≡◌, refl, false, none, some, [], select, option_eq, string_eq}
use gpt_pilot.Result.{ok}
use gpt_pilot.ProjectState.{
  ProjectState, current_step, steps_unfinished, iterations_unfinished, unfinished_iterations,
  current_epic, epics_unfinished, unfinished_tasks, tasks_unfinished, current_task,
}
use gpt_pilot.Agents.{AgentClass, respond_done}
use gpt_pilot.Orchestrator.{
  create_agent, agent_for_stage, agent_for_task, agent_for_task_status, one, plain,
}
use gpt_pilot.ErrorHandler.{CommandDetails, Confirm, handle_command_error, debug_command}
use gpt_pilot.ErrorHandler.Recovery.{create_agent-handle_command_error}
use gpt_pilot.Tests.Fixtures.{working}

abbrev failed : ProjectState
failed = record (working) { iterations = [] }

abbrev install : CommandDetails
install = record { cmd = "npm install" }

abbrev yes_please : Confirm
yes_please = record { cancelled = false; button = "yes" }

debugs :
    (next : ProjectState) × (handle_command_error "boom"
        (some install)
        yes_please
        "add the package"
        failed
        failed
      ≡ ok (respond_done AgentClass.error_handler, next))
unfolding handle_command_error debug_command string_eq current_step steps_unfinished select
debugs = (_, refl)

create_agent-handle_command_error_example :
    create_agent debugs.0 none ≡ ok (one (plain AgentClass.developer))
unfolding string_eq agent_for_stage current_epic epics_unfinished select option_eq unfinished_tasks
    tasks_unfinished agent_for_task current_task agent_for_task_status iterations_unfinished
    unfinished_iterations
create_agent-handle_command_error_example =
    create_agent-handle_command_error "boom" "add the package" install yes_please failed failed
      debugs.0 (respond_done AgentClass.error_handler) refl refl refl refl debugs.1
