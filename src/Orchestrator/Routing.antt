-- ===== src/Orchestrator/Routing.antt =====
-- Which agent `create_agent` chooses, and when it raises.
use gpt_pilot.Prelude.{
  String, ◌≡◌, ◌≢◌, refl, Bool, true, false, ◌||◌, Option, none, some, List, [], ◌∷◌, map, ◌⊎◌,
  ◌==◌, string_eq, option_eq, arith, head?, select, Option-cases, inl, inr, head?-select, ap, ◌∙◌,
}
use gpt_pilot.Result.{ok, raise, value_error, PyError}
use gpt_pilot.Records.{TaskStatus, IterationStatus, Iteration, Step}
use gpt_pilot.ProjectState.{
  ProjectState, current_step, current_task, unfinished_steps, current_iteration, get_steps_of_type,
  steps_of_type, unfinished_iterations, iterations_unfinished, is_unfinished_iteration,
  steps_unfinished,
}
use gpt_pilot.Agents.{AgentClass, AgentResponse, Agent}
use gpt_pilot.Orchestrator.{
  one, many, plain, with_step, routed, agent_for_stage, agent_for_task, agent_for_work,
  agent_for_iterations, agent_for_iteration_status, agent_for_task_status, create_agent_for_step,
  create_agent, task_status, iteration_status,
}

-- The step types that `create_agent_for_step` knows.
abbrev pub known_step_type : Option String → Bool
known_step_type type =
    type == some "save_file"
    || type == some "command"
    || type == some "human_intervention"
    || type == some "review_task"
    || type == some "create_readme"
    || type == some "utility_function"

-- All the guards of `create_agent` pass: it comes to the work on the current task.
abbrev pub AtWork : ProjectState → Option AgentResponse → Type 0
AtWork s prev_response =
    (routed prev_response ≡ none) × (agent_for_stage s ≡ none) × (agent_for_task s ≡ none)

create_agent_for_step_raises :
    (s : ProjectState) (step : Step)
    → known_step_type step.type ≡ false
    → create_agent_for_step s step ≡ raise (value_error "Unknown step type: ")
unfolding create_agent_for_step
create_agent_for_step_raises s step h = ground arith

-- `create_agent` raises only when it has come to the work on a task, and the current step has a type
-- that it does not know.
pub create_agent_raises :
    (s : ProjectState) (prev_response : Option AgentResponse) {e : PyError}
    → create_agent s prev_response ≡ raise e
    → (step : Step) × (current_step s ≡ some step)
      × (known_step_type step.type ≡ false)
      × (routed prev_response ≡ none)
      × (agent_for_stage s ≡ none)
      × (agent_for_task s ≡ none)
unfolding create_agent agent_for_work create_agent_for_step
create_agent_raises s prev_response h = elim (Option-cases (current_step s)) [
  | inl absent ↦ absurd (ground arith)
  | inr (step, current) ↦
      (step, current, ground (arith, current), ground arith, ground arith, ground arith)
]

abbrev pub is_closed : TaskStatus → Bool
is_closed TaskStatus.reviewed = true
is_closed TaskStatus.documented = true
is_closed TaskStatus.skipped = true
is_closed status = false

-- The agents that prepare the tasks or close them, and do not work on the steps of one.
abbrev pub is_manager : AgentClass → Bool
is_manager AgentClass.frontend = true
is_manager AgentClass.spec_writer = true
is_manager AgentClass.architect = true
is_manager AgentClass.tech_lead = true
is_manager AgentClass.tech_writer = true
is_manager AgentClass.task_completer = true
is_manager c = false

manager_for_stage :
    (s : ProjectState) (c : AgentClass) → agent_for_stage s ≡ some c → is_manager c ≡ true
unfolding agent_for_stage
manager_for_stage s c h = ground arith

manager_for_status :
    (status : TaskStatus)
    → is_closed status ≡ true
    → (c : AgentClass) × (agent_for_task_status status ≡ some c) × (is_manager c ≡ true)
unfolding agent_for_task_status
manager_for_status TaskStatus.reviewed h = (AgentClass.tech_writer, refl, refl)
manager_for_status TaskStatus.documented h = (AgentClass.task_completer, refl, refl)
manager_for_status TaskStatus.skipped h = (AgentClass.task_completer, refl, refl)
manager_for_status _ h = absurd (ground arith)

pub create_agent-closed_task :
    (s : ProjectState) (status : TaskStatus) (prev_response : Option AgentResponse)
    → task_status (current_task s) ≡ some status
    → is_closed status ≡ true
    → (agent : Agent) × (create_agent s prev_response ≡ ok (one agent))
      × ((routed prev_response ≡ some agent)
          ⊎ ((routed prev_response ≡ none) × (is_manager agent.class ≡ true)))
unfolding create_agent agent_for_task
create_agent-closed_task s status prev_response current closed =
    elim (Option-cases (routed prev_response)) [
      | inr (agent, answered) ↦ (agent, ground (arith, answered), inl answered)
      | inl quiet ↦ elim (Option-cases (agent_for_stage s)) [
        | inr (c, stage) ↦
            (plain c, ground (arith, quiet, stage), inr (quiet, manager_for_stage s c stage))
        | inl passed ↦
            let (c, chosen, manager) = manager_for_status status closed in
            (plain c, ground (arith, quiet, passed, current, chosen), inr (quiet, manager))
      ]
    ]

head?-iterations_unfinished :
    (iterations : List Iteration) (i : Iteration)
    → head? (iterations_unfinished iterations) ≡ some i
    → is_unfinished_iteration i ≡ true
unfolding iterations_unfinished
head?-iterations_unfinished iterations i h = head?-select is_unfinished_iteration iterations i h

tail_of_head :
    (steps : List Step) (step : Step)
    → head? steps ≡ some step
    → (rest : List Step) × (steps ≡ step ∷ rest)
tail_of_head [] step h = absurd (ground arith)
tail_of_head (x ∷ rest) step h = (rest, ground arith)

steps_of_type-cons :
    (t : String) (step : Step) (rest : List Step)
    → step.type ≡ some t
    → steps_of_type t (step ∷ rest) ≡ step ∷ steps_of_type t rest
unfolding steps_of_type select
steps_of_type-cons t step rest h = ground arith

-- No step is done by the troubleshooter.
step_not_troubleshooter :
    (s : ProjectState) (step : Step)
    → create_agent_for_step s step ≢ ok (one (plain AgentClass.troubleshooter))
unfolding create_agent_for_step
step_not_troubleshooter s step h = ground arith

manager_for_task :
    (s : ProjectState) (c : AgentClass) → agent_for_task s ≡ some c → is_manager c ≡ true
unfolding agent_for_task agent_for_task_status
manager_for_task s c h = ground arith

work_of_troubleshooter :
    (s : ProjectState)
    → create_agent s none ≡ ok (one (plain AgentClass.troubleshooter))
    → agent_for_work s ≡ ok (one (plain AgentClass.troubleshooter))
unfolding create_agent routed
work_of_troubleshooter s h = elim (Option-cases (agent_for_stage s)) [
  | inr (c, stage) ↦ absurd (ground (arith, stage, manager_for_stage s c stage))
  | inl passed ↦ elim (Option-cases (agent_for_task s)) [
    | inr (c, task) ↦ absurd (ground (arith, passed, task, manager_for_task s c task))
    | inl unset ↦ ground (arith, passed, unset)
  ]
]

iterations_of_troubleshooter :
    (s : ProjectState)
    → agent_for_iterations s ≡ AgentClass.troubleshooter
    → (unfinished_iterations s ≡ [])
      ⊎ (iteration_status (current_iteration s) ≡ some IterationStatus.find_solution)
unfolding agent_for_iterations agent_for_iteration_status current_iteration
iterations_of_troubleshooter s h =
    elim (Option-cases (head? (iterations_unfinished s.iterations))) [
      | inl absent ↦ ground (arith, absent)
      | inr (i, found) ↦ ground (arith, found, head?-iterations_unfinished s.iterations i found)
    ]

steps_of_troubleshooter :
    (s : ProjectState)
    → agent_for_work s ≡ ok (one (plain AgentClass.troubleshooter))
    → (unfinished_steps s ≡ []) × (agent_for_iterations s ≡ AgentClass.troubleshooter)
unfolding agent_for_work current_step
steps_of_troubleshooter s h = elim (Option-cases (head? (steps_unfinished s.steps))) [
  | inl absent ↦ (ground (arith, absent), ground (arith, absent))
  | inr (step, found) ↦ absurd (ground (arith, found, step_not_troubleshooter s step))
]

-- The troubleshooter is called to review the task only when no step and no iteration is left
-- unfinished, or when the current iteration asks for a solution.
pub create_agent-troubleshooter :
    (s : ProjectState)
    → create_agent s none ≡ ok (one (plain AgentClass.troubleshooter))
    → (unfinished_steps s ≡ [])
      × ((unfinished_iterations s ≡ [])
          ⊎ (iteration_status (current_iteration s) ≡ some IterationStatus.find_solution))
create_agent-troubleshooter s h =
    let (steps, iterations) = steps_of_troubleshooter s (work_of_troubleshooter s h) in
    (steps, iterations_of_troubleshooter s iterations)

create_agent_for_step-many :
    (s : ProjectState) (step : Step)
    → step.type ≡ some "save_file"
    → create_agent_for_step s step
      ≡ ok (many (map (with_step AgentClass.code_monkey) (get_steps_of_type s "save_file")))
unfolding create_agent_for_step
create_agent_for_step-many s step t = ground arith

-- When the current step saves a file, one CodeMonkey is created for each unfinished step that saves a
-- file, in order, the first of them for the current step; so the list that is run is not empty.
pub create_agent_for_step-save_file :
    (s : ProjectState) (step : Step)
    → current_step s ≡ some step
    → step.type ≡ some "save_file"
    → (steps : List Step) × (get_steps_of_type s "save_file" ≡ step ∷ steps)
      × (create_agent_for_step s step
          ≡ ok (many (map (with_step AgentClass.code_monkey) (step ∷ steps))))
unfolding current_step get_steps_of_type
create_agent_for_step-save_file s step h t =
    let (rest, e) = tail_of_head (unfinished_steps s) step h in
    let same = ap (steps_of_type "save_file") e ∙ steps_of_type-cons "save_file" step rest t in
    (
      steps_of_type "save_file" rest,
      same,
      create_agent_for_step-many s step t
          ∙ ap (λ l. ok (many (map (with_step AgentClass.code_monkey) l))) same,
    )
