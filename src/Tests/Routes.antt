-- ===== src/Tests/Routes.antt =====
-- The orchestrator on concrete states and agents.
use gpt_pilot.Prelude.{
  String, ◌≡◌, refl, false, true, none, some, List, [], ◌∷◌, ◌⊎◌, map, length, option_eq, string_eq,
  if◌then◌else◌, select, ap, ◌==◌, suc,
}
use gpt_pilot.Result.{Result, ok, raise, value_error}
use gpt_pilot.Records.{TaskStatus, Step, IterationStatus}
use gpt_pilot.ProjectState.{
  ProjectState, current_step, current_task, current_epic, tasks_unfinished, unfinished_steps,
  epics_unfinished, steps_unfinished, unfinished_tasks, unfinished_iterations, get_steps_of_type,
  current_iteration, iterations_unfinished,
}
use gpt_pilot.Agents.{
  agent_class_eq, AgentClass, AgentResponse, Agent, respond_done, respond_error,
  respond_input_required, AgentClass-discrete,
}
use gpt_pilot.Orchestrator.{
  one, many, plain, with_step, create_agent, create_agent_for_step, handle_parallel_responses,
  routed, agent_for_work, agent_for_stage, agent_for_task_status, agent_for_task, iteration_status,
  agent_for_iterations, agent_for_response,
}
use gpt_pilot.Orchestrator.Routing.{
  create_agent_raises, create_agent-closed_task, create_agent-troubleshooter,
  create_agent_for_step-save_file, known_step_type, is_manager,
}
use gpt_pilot.Orchestrator.Run.{
  Runtime, Progress, run_step, run_round, execute_agent, run_single_agent,
}
use gpt_pilot.Orchestrator.Events.{IsBalanced, Ended, events_of, run_step-IsBalanced, open_runs}
use gpt_pilot.Orchestrator.Parallel.{
  handle_parallel_responses_done, handle_parallel_responses_first,
}
use gpt_pilot.Tests.Fixtures.{working, save_step, odd_step, command_step, task_a}

abbrev dancing : ProjectState
dancing = record (working) { steps = odd_step ∷ [] }

-- The current step has a type that nobody knows.
raises_on_unknown_step : create_agent dancing none ≡ raise (value_error "Unknown step type: ")
unfolding create_agent routed agent_for_stage current_epic epics_unfinished select option_eq
    string_eq unfinished_tasks tasks_unfinished agent_for_task current_task agent_for_task_status
    agent_for_work current_step steps_unfinished create_agent_for_step
raises_on_unknown_step = refl

create_agent_raises_example :
    (step : Step) × (current_step dancing ≡ some step)
    × (known_step_type step.type ≡ false)
    × (routed none ≡ none)
    × (agent_for_stage dancing ≡ none)
    × (agent_for_task dancing ≡ none)
create_agent_raises_example = create_agent_raises dancing none raises_on_unknown_step

abbrev skipped : ProjectState
skipped = record (working) { tasks = record (task_a) { status = some TaskStatus.skipped } ∷ [] }

create_agent-closed_task_example :
    (agent : Agent) × (create_agent skipped (some (respond_done AgentClass.developer))
      ≡ ok (one agent))
    × ((routed (some (respond_done AgentClass.developer)) ≡ some agent)
        ⊎ ((routed (some (respond_done AgentClass.developer)) ≡ none)
            × (is_manager agent.class ≡ true)))
unfolding current_task tasks_unfinished select
create_agent-closed_task_example =
    create_agent-closed_task skipped TaskStatus.skipped (some (respond_done AgentClass.developer))
      refl refl

abbrev reviewing : ProjectState
reviewing = record (working) {
  steps = record (command_step) { completed = true } ∷ [];
  iterations = [];
}

calls_troubleshooter : create_agent reviewing none ≡ ok (one (plain AgentClass.troubleshooter))
unfolding create_agent routed agent_for_stage current_epic epics_unfinished select option_eq
    string_eq unfinished_tasks tasks_unfinished agent_for_task current_task agent_for_task_status
    agent_for_work current_step steps_unfinished agent_for_iterations current_iteration
    iterations_unfinished
calls_troubleshooter = refl

create_agent-troubleshooter_run :
    (unfinished_steps reviewing ≡ [])
    × ((unfinished_iterations reviewing ≡ [])
        ⊎ (iteration_status (current_iteration reviewing) ≡ some IterationStatus.find_solution))
create_agent-troubleshooter_run = create_agent-troubleshooter reviewing calls_troubleshooter

abbrev saving : ProjectState
saving = record (working) { steps = save_step ∷ command_step ∷ save_step ∷ [] }

create_agent_for_step-save_file_run :
    (steps : List Step) × (get_steps_of_type saving "save_file" ≡ save_step ∷ steps)
    × (create_agent_for_step saving save_step
        ≡ ok (many (map (with_step AgentClass.code_monkey) (save_step ∷ steps))))
unfolding current_step steps_unfinished select
create_agent_for_step-save_file_run = create_agent_for_step-save_file saving save_step refl refl

abbrev failing : AgentResponse
failing = respond_error AgentClass.code_monkey "boom"

handle_parallel_responses_done_run :
    handle_parallel_responses AgentClass.code_monkey (failing ∷ failing ∷ [])
    ≡ ok (respond_done AgentClass.code_monkey)
handle_parallel_responses_done_run =
    handle_parallel_responses_done (failing ∷ failing ∷ []) ((λ e. cc), ((λ e. cc), tt))

abbrev asking : String → AgentResponse
asking path = respond_input_required AgentClass.code_monkey (record { file = path; line = 3 } ∷ [])

handle_parallel_responses_first_run :
    handle_parallel_responses AgentClass.code_monkey (failing ∷ asking ".env" ∷ asking "b.env" ∷ [])
    ≡ ok (asking ".env")
handle_parallel_responses_first_run =
    handle_parallel_responses_first (failing ∷ []) (asking "b.env" ∷ []) (asking ".env") _ []
      ((λ e. cc), tt) refl refl

outcomes : List Agent → List (Result AgentResponse)
outcomes [] = []
outcomes (a ∷ agents) = raise (value_error "boom") ∷ outcomes agents

length-outcomes : (agents : List Agent) → length (outcomes agents) ≡ length agents
unfolding outcomes
length-outcomes [] = refl
length-outcomes (a ∷ agents) = ap suc (length-outcomes agents)

-- Every agent raises when it is run alone or beside others, and the state never changes.
abbrev broken : Runtime
broken = record {
  World = ProjectState;
  current_state = λ w. w;
  run_agent = λ a w. (
    if a.class == AgentClass.error_handler
        then ok (respond_done a.class)
        else raise (value_error "boom"),
    w,
  );
  gather = λ agents w. (outcomes agents, w);
  length-gather = λ agents w. length-outcomes agents;
  next_state = λ w. w;
  set_next_state = λ s w. s;
}

-- The command fails, and the error handler ends the step.
ends_after_error :
    (p : Progress ProjectState) × (run_step broken 5 none working [] ≡ ok p)
    × (length (events_of p) ≡ 4)
unfolding run_step run_round execute_agent run_single_agent create_agent routed agent_for_stage
    current_epic epics_unfinished select option_eq string_eq unfinished_tasks tasks_unfinished
    agent_for_task current_task agent_for_task_status agent_for_work current_step steps_unfinished
    create_agent_for_step agent_class_eq AgentClass-discrete agent_for_response
ends_after_error = (_, refl, refl)

run_step-IsBalanced_example : IsBalanced (events_of ends_after_error.0) × Ended ends_after_error.0
unfolding open_runs
run_step-IsBalanced_example =
    run_step-IsBalanced broken 5 none working [] (λ c n. refl) ends_after_error.1
