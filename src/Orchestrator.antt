-- ===== src/Orchestrator.antt =====
-- class Orchestrator of core/agents/orchestrator.py: which agent works next, how agents are run and
-- how their responses are handled.
pub mod Routing
pub mod Knowledge
pub mod Run
pub mod Events
pub mod Parallel
use gpt_pilot.Prelude.{
  ℕ, zero, suc, String, Bool, true, false, not, ◌&&◌, ◌||◌, Option, none, some, List, [], ◌∷◌, ◌++◌,
  map, ◌==◌, string_eq, option_eq, is_empty, if◌then◌else◌,
}
use gpt_pilot.Prelude.Dict.{Dict}
use gpt_pilot.Result.{Result, ok, raise, PyError, value_error, ◌>>=◌}
use gpt_pilot.Records.{TaskStatus, Task, IterationStatus, Iteration, Step, Epic}
use gpt_pilot.ProjectState.{
  ProjectState, current_step, current_task, current_epic, unfinished_tasks, current_iteration,
  get_steps_of_type,
}
use gpt_pilot.Agents.{
  ResponseType, AgentClass, InputFile, AgentResponse, Agent, respond_done, respond_error,
  respond_input_required,
}

-- What `create_agent` returns: an agent, or a list of agents to be run in parallel.
pub data Choice : Type 0 where
  one : Agent → Choice
  many : List Agent → Choice

abbrev pub plain : AgentClass → Agent
plain c = record { class = c; step = none; prev_response = none }

abbrev pub with_step : AgentClass → Step → Agent
with_step c step = record { class = c; step = some step; prev_response = none }

-- The first block of `create_agent`: the response types that choose the agent by themselves.
unfoldable pub agent_for_response : ResponseType → Option AgentClass
agent_for_response ResponseType.cancel = some AgentClass.error_handler
agent_for_response ResponseType.error = some AgentClass.error_handler
agent_for_response ResponseType.describe_files = some AgentClass.code_monkey
agent_for_response ResponseType.input_required = some AgentClass.human_input
agent_for_response ResponseType.import_project = some AgentClass.importer
agent_for_response ResponseType.external_docs_required = some AgentClass.external_documentation
agent_for_response ResponseType.web_search_required = some AgentClass.web_search
agent_for_response ResponseType.update_specification = some AgentClass.spec_writer
agent_for_response type = none

-- The agents that a task status calls for.
unfoldable pub agent_for_task_status : TaskStatus → Option AgentClass
agent_for_task_status TaskStatus.reviewed = some AgentClass.tech_writer
agent_for_task_status TaskStatus.documented = some AgentClass.task_completer
agent_for_task_status TaskStatus.skipped = some AgentClass.task_completer
agent_for_task_status status = none

-- The `elif` chain over the status of the current iteration.
unfoldable pub agent_for_iteration_status : IterationStatus → Option AgentClass
agent_for_iteration_status IterationStatus.hunting_for_bug = some AgentClass.bug_hunter
agent_for_iteration_status IterationStatus.start_pair_programming = some AgentClass.bug_hunter
agent_for_iteration_status IterationStatus.awaiting_logging = some AgentClass.developer
agent_for_iteration_status IterationStatus.awaiting_bug_fix = some AgentClass.developer
agent_for_iteration_status IterationStatus.implement_solution = some AgentClass.developer
agent_for_iteration_status IterationStatus.awaiting_user_test = some AgentClass.bug_hunter
agent_for_iteration_status IterationStatus.awaiting_bug_reproduction = some AgentClass.bug_hunter
agent_for_iteration_status IterationStatus.find_solution = some AgentClass.troubleshooter
agent_for_iteration_status IterationStatus.problem_solver = some AgentClass.problem_solver
agent_for_iteration_status IterationStatus.new_feature_requested = some AgentClass.spec_writer
agent_for_iteration_status IterationStatus.done = none

unfoldable pub create_agent_for_step : ProjectState → Step → Result Choice
create_agent_for_step s step =
    if step.type == some "save_file"
    then ok (many (map (with_step AgentClass.code_monkey) (get_steps_of_type s "save_file")))
    else if step.type == some "command"
    then ok (one (with_step AgentClass.executor step))
    else if step.type == some "human_intervention"
    then ok (one (with_step AgentClass.human_input step))
    else if step.type == some "review_task"
    then ok (one (plain AgentClass.legacy_handler))
    else if step.type == some "create_readme"
    then ok (one (plain AgentClass.tech_writer))
    else if step.type == some "utility_function"
    then ok (one (plain AgentClass.developer))
    else raise (value_error "Unknown step type: ")

-- `if prev_response:` and the tests on its type.
unfoldable pub routed : Option AgentResponse → Option Agent
routed none = none
routed (some response) = elim (agent_for_response response.type) [
  | none ↦ none
  | some c ↦ some (record { class = c; step = none; prev_response = some response })
]

abbrev pub has_templates : Option (Dict String) → Bool
has_templates none = false
has_templates (some templates) = not (is_empty templates)

abbrev pub in_frontend : Option Epic → Bool
in_frontend none = false
in_frontend (some epic) = epic.source == some "frontend"

-- The stages before the first task: front end, specification, architecture, task list.
unfoldable pub agent_for_stage : ProjectState → Option AgentClass
agent_for_stage s =
    if is_empty s.epics || in_frontend (current_epic s)
    then some AgentClass.frontend
    else if s.specification.description == ""
    then some AgentClass.spec_writer
    else if s.specification.architecture == ""
    then some AgentClass.architect
    else if is_empty (unfinished_tasks s)
        || has_templates s.specification.templates && is_empty s.files
    then some AgentClass.tech_lead
    else none

abbrev pub task_status : Option Task → Option TaskStatus
task_status none = none
task_status (some task) = task.status

unfoldable pub agent_for_task : ProjectState → Option AgentClass
agent_for_task s = elim (task_status (current_task s)) [
  | none ↦ none
  | some status ↦ agent_for_task_status status
]

abbrev pub iteration_status : Option Iteration → Option IterationStatus
iteration_status none = none
iteration_status (some iteration) = iteration.status

-- The rest of `create_agent` after the steps: the iterations, or the review of the task.
unfoldable pub agent_for_iterations : ProjectState → AgentClass
agent_for_iterations s = elim (iteration_status (current_iteration s)) [
  | none ↦ AgentClass.troubleshooter
  | some status ↦ elim (agent_for_iteration_status status) [
    | none ↦ AgentClass.troubleshooter
    | some c ↦ c
  ]
]

unfoldable pub agent_for_work : ProjectState → Result Choice
agent_for_work s =
    if is_empty s.steps && is_empty s.iterations
    then ok (one (plain AgentClass.developer))
    else elim (current_step s) [
      | some step ↦ create_agent_for_step s step
      | none ↦ ok (one (plain (agent_for_iterations s)))
    ]

unfoldable pub create_agent : ProjectState → Option AgentResponse → Result Choice
create_agent s prev_response = elim (routed prev_response) [
  | some agent ↦ ok (one agent)
  | none ↦ elim (agent_for_stage s) [
    | some c ↦ ok (one (plain c))
    | none ↦ elim (agent_for_task s) [ some c ↦ ok (one (plain c)) | none ↦ agent_for_work s ]
  ]
]

-- `for single_response in responses`, up to the `break`.
unfoldable pub first_input_required : List AgentResponse → List InputFile
first_input_required [] = []
first_input_required (r ∷ responses) =
    let rest = first_input_required responses in
    elim r.type [ ResponseType.input_required ↦ r.files | _ ↦ rest ]

unfoldable pub handle_parallel_responses : AgentClass → List AgentResponse → Result AgentResponse
unfolding first_input_required
handle_parallel_responses AgentClass.code_monkey responses =
    let files = first_input_required responses in
    ok (
      if is_empty files
      then respond_done AgentClass.code_monkey
      else respond_input_required AgentClass.code_monkey files)
handle_parallel_responses agent responses = raise (value_error "Unhandled parallel agent type: ")

-- The messages that the orchestrator publishes.
pub data Event : Type 0 where
  start : AgentClass → Event
  finish : AgentClass → AgentResponse → Event

-- The text of an exception; those of the other classes are not modelled.
abbrev pub str_error : PyError → String
str_error (value_error message) = message
str_error (PyError.key_error key) = key
str_error (PyError.file_not_found path) = path
str_error PyError.index_error = "list index out of range"
str_error e = ""

-- `except Exception`: SystemExit is no Exception, and escapes.
abbrev pub is_exception : PyError → Bool
is_exception PyError.system_exit = false
is_exception e = true

-- A SystemExit of one of the tasks is raised by `gather`'s event loop, not returned.
abbrev pub check_outcomes : List (Result AgentResponse) → Result (Unit {0})
check_outcomes [] = ok tt
check_outcomes (ok response ∷ raw) = check_outcomes raw
check_outcomes (raise e ∷ raw) =
    let rest = check_outcomes raw in if is_exception e then rest else raise e

-- An exception becomes an error response.
abbrev pub response_of : AgentClass → Result AgentResponse → AgentResponse
response_of c (ok response) = response
response_of c (raise e) = respond_error c (str_error e)

-- `zip(agents, raw_responses)`
unfoldable pub collect_responses : List Agent → List (Result AgentResponse) → List AgentResponse
collect_responses (a ∷ agents) (r ∷ raw) = response_of a.class r ∷ collect_responses agents raw
collect_responses agents raw = []

unfoldable pub start_events : List Agent → List Event
start_events [] = []
start_events (a ∷ agents) = start a.class ∷ start_events agents

unfoldable pub finish_events : List Agent → List (Result AgentResponse) → List Event
finish_events (a ∷ agents) (r ∷ raw) =
    finish a.class (response_of a.class r) ∷ finish_events agents raw
finish_events agents raw = []
