-- ===== src/ErrorHandler/Recovery.antt =====
-- How the work goes on after the error handler.
use gpt_pilot.Prelude.{
  subst, ◌∙◌, String, ◌≡◌, refl, false, ◌||◌, none, some, List, [], ◌∷◌, ◌++◌, ◌==◌, string_eq,
  select, is_empty, arith, ap,
}
use gpt_pilot.Result.{ok}
use gpt_pilot.Records.{Iteration, Step}
use gpt_pilot.ProjectState.{
  ProjectState, current_step, unfinished_steps, steps_unfinished, unfinished_iterations,
  iterations_unfinished, current_iteration, current_task, current_epic, unfinished_epics,
  unfinished_tasks,
}
use gpt_pilot.Agents.{AgentClass, AgentResponse, respond_done}
use gpt_pilot.Orchestrator.{
  create_agent, agent_for_stage, agent_for_task, agent_for_work, agent_for_iterations,
  agent_for_iteration_status, routed, one, plain,
}
use gpt_pilot.ErrorHandler.{
  CommandDetails, Confirm, solution, finished_steps, debug_command, handle_command_error,
}

none_unfinished : (steps : List Step) → steps_unfinished (finished_steps steps) ≡ []
unfolding steps_unfinished finished_steps select
none_unfinished [] = refl
none_unfinished (step ∷ steps) = ground (arith, none_unfinished steps)

iterations_unfinished-append :
    (iterations : List Iteration) (cmd description : String)
    → iterations_unfinished (iterations ++ solution cmd description ∷ [])
      ≡ iterations_unfinished iterations ++ solution cmd description ∷ []
unfolding iterations_unfinished select
iterations_unfinished-append [] cmd description = refl
iterations_unfinished-append (i ∷ iterations) cmd description =
    ground (arith, iterations_unfinished-append iterations cmd description)

-- When the user lets a failed command be debugged, the handler does not raise in a state that has a
-- current step: no step is left unfinished, and the solution comes behind the unfinished iterations.
pub handle_command_error_lem :
    (message llm_response : String) (details : CommandDetails) (confirm : Confirm)
    (current next : ProjectState) (step : Step)
    → (message == "") ≡ false
    → (details.cmd == "") ≡ false
    → (confirm.cancelled || confirm.button == "no") ≡ false
    → current_step current ≡ some step
    → (next' : ProjectState) × (handle_command_error message
          (some details)
          confirm
          llm_response
          current
          next
        ≡ ok (respond_done AgentClass.error_handler, next'))
      × (unfinished_steps next' ≡ [])
      × (unfinished_iterations next'
          ≡ unfinished_iterations current ++ solution details.cmd llm_response ∷ [])
unfolding handle_command_error debug_command unfinished_steps unfinished_iterations
handle_command_error_lem message llm_response details confirm current next step has_message has_cmd
      agreed at =
    (
      record next {
        iterations = current.iterations ++ solution details.cmd llm_response ∷ [];
        steps = finished_steps current.steps;
      },
      rw (has_message, has_cmd, agreed, debug_command, at) refl,
      none_unfinished current.steps,
      iterations_unfinished-append current.iterations details.cmd llm_response,
    )

is_empty-snoc :
    (iterations : List Iteration) (i : Iteration) → is_empty (iterations ++ i ∷ []) ≡ false
is_empty-snoc [] i = refl
is_empty-snoc (j ∷ iterations) i = refl

agent_for_work-solution :
    (s : ProjectState) (iterations : List Iteration) (cmd description : String)
    → unfinished_steps s ≡ []
    → s.iterations ≡ iterations ++ solution cmd description ∷ []
    → unfinished_iterations s ≡ solution cmd description ∷ []
    → agent_for_work s ≡ ok (one (plain AgentClass.developer))
unfolding agent_for_work current_step agent_for_iterations current_iteration
    agent_for_iteration_status
agent_for_work-solution s iterations cmd description finished all unfinished =
    ground (arith, finished, all, unfinished, is_empty-snoc iterations (solution cmd description))

agent_for_stage-solution :
    (s : ProjectState) (iterations : List Iteration) (steps : List Step)
    → agent_for_stage (record s { iterations = iterations; steps = steps }) ≡ agent_for_stage s
unfolding agent_for_stage current_epic unfinished_epics unfinished_tasks
agent_for_stage-solution s iterations steps = refl

agent_for_task-solution :
    (s : ProjectState) (iterations : List Iteration) (steps : List Step)
    → agent_for_task (record s { iterations = iterations; steps = steps }) ≡ agent_for_task s
unfolding agent_for_task current_task unfinished_tasks
agent_for_task-solution s iterations steps = refl

handled :
    (message llm_response : String) (details : CommandDetails) (confirm : Confirm)
    (current next next' : ProjectState) (response : AgentResponse)
    → (confirm.cancelled || confirm.button == "no") ≡ false
    → handle_command_error message (some details) confirm llm_response current next
      ≡ ok (response, next')
    → record next {
      iterations = current.iterations ++ solution details.cmd llm_response ∷ [];
      steps = finished_steps current.steps;
    }
      ≡ next'
unfolding handle_command_error debug_command
handled message llm_response details confirm current next next' response agreed done =
    ground (arith, agreed, done)

create_agent-agent_for_work :
    (s : ProjectState)
    → agent_for_stage s ≡ none
    → agent_for_task s ≡ none
    → create_agent s none ≡ agent_for_work s
unfolding create_agent routed
create_agent-agent_for_work s stage task = ground (arith, stage, task)

-- If no iteration was unfinished before, and the next state is past its stages and its task open, then
-- the orchestrator creates a Developer for the solution, once the next state has become the current
-- one.
pub create_agent-handle_command_error :
    (message llm_response : String) (details : CommandDetails) (confirm : Confirm)
    (current next next' : ProjectState) (response : AgentResponse)
    → (confirm.cancelled || confirm.button == "no") ≡ false
    → unfinished_iterations current ≡ []
    → agent_for_stage next ≡ none
    → agent_for_task next ≡ none
    → handle_command_error message (some details) confirm llm_response current next
      ≡ ok (response, next')
    → create_agent next' none ≡ ok (one (plain AgentClass.developer))
create_agent-handle_command_error message llm_response details confirm current next next' response
      agreed settled stage task done =
    let iterations = current.iterations ++ solution details.cmd llm_response ∷ [] in
    let steps = finished_steps current.steps in
    let work =
      agent_for_work-solution (record next { iterations = iterations; steps = steps })
        current.iterations details.cmd llm_response
        (unfold unfinished_steps in none_unfinished current.steps) refl
        (unfold unfinished_iterations in
          iterations_unfinished-append current.iterations details.cmd llm_response
          ∙ ap (λ l. l ++ solution details.cmd llm_response ∷ []) settled) in
    subst (λ (s : ProjectState). create_agent s none ≡ ok (one (plain AgentClass.developer)))
      (handled message llm_response details confirm current next next' response agreed done)
      (create_agent-agent_for_work (record next { iterations = iterations; steps = steps })
          (agent_for_stage-solution next iterations steps ∙ stage)
          (agent_for_task-solution next iterations steps ∙ task)
        ∙ work)
