-- ===== src/Workers.antt =====
-- The agents that finish a step or a task: Executor of core/agents/executor.py, TaskCompleter of
-- core/agents/task_completer.py, HumanInput of core/agents/human_input.py and LegacyHandler of
-- core/agents/legacy_handler.py. What a command led to is an argument, and what is only shown is left
-- out.
pub mod Commands
use Prim.Native.String
use gpt_pilot.Prelude.{
  ℕ, zero, suc, ◌+◌, String, Bool, Option, none, some, ◌==◌, string_eq, option_eq, ltb,
  if◌then◌else◌,
}
use gpt_pilot.Prelude.Strings.{size}
use gpt_pilot.Result.{Result, ok, raise, value_error, type_error, attribute_error, ◌>>=◌}
use gpt_pilot.Records.{Step, Epic}
use gpt_pilot.ProjectState.{ProjectState, current_task, current_epic, complete_step, complete_task}
use gpt_pilot.Agents.{AgentClass, AgentResponse, ResponseType, respond_done, respond_error}
use gpt_pilot.ErrorHandler.{CommandDetails}
use gpt_pilot.BugHunter.{UserInput}
use gpt_pilot.Troubleshooter.{task_index}

-- `step["command"]`
pub record CommandOptions : Type 0 where
  pub command : String
  pub timeout : ℕ

-- What the LLM makes of the output of the command.
pub record CommandAnalysis : Type 0 where
  pub analysis : String
  pub success : Bool

-- `s[:n]`
unfoldable pub first_chars : ℕ → String → String
first_chars zero s = ""
first_chars (suc n) String.[] = ""
first_chars (suc n) (String.◌∷◌ c s) = String.◌∷◌ c (first_chars n s)

abbrev pub command_name : String → String
command_name cmd = if ltb 33 (size cmd) then String.◌++◌ (first_chars 30 cmd) "..." else cmd

-- `complete`, and the action.
unfoldable pub complete_command : String → String → ProjectState → Result ProjectState
complete_command verb cmd next = complete_step next "command" >>= λ next'.
    ok (record next' { action = some (String.◌++◌ verb (String.◌++◌ (command_name cmd) "\"")) })

-- The command that is run: the user may have changed it.
abbrev pub command_to_run : String → UserInput → Result String
command_to_run cmd confirm = if confirm.button == some "yes" then ok cmd else elim confirm.text [
  | none ↦ raise (value_error "cmd must be a string")
  | some text ↦ ok text
]

-- The response with the details in its data.
abbrev pub respond_analysis : String → CommandAnalysis → AgentResponse × Option CommandDetails
respond_analysis cmd a =
    if a.success
    then (respond_done AgentClass.executor, none)
    else (respond_error AgentClass.executor a.analysis, some (record { cmd = cmd }))

-- `run`; `outcome` is the analysis of the output of a command with a time limit, or what it raised.
unfoldable pub execute :
    (String → ℕ → Result CommandAnalysis)
    → Option CommandOptions
    → UserInput
    → ProjectState
    → Result ((AgentResponse × Option CommandDetails) × ProjectState)
execute outcome none confirm next =
    raise (value_error "No current step set (probably an Orchestrator bug)")
execute outcome (some options) confirm next =
    if confirm.button == some "no"
    then (complete_command "Skip \"" options.command next >>= λ next'.
        ok ((respond_done AgentClass.executor, none), next'))
    else do
      cmd ← command_to_run options.command confirm
      analysis ← outcome cmd options.timeout
      next' ← complete_command "Run \"" options.command next
      ok (respond_analysis cmd analysis, next')

-- `run` of TaskCompleter, with the text of the action for the number of a task.
unfoldable pub complete_current_task :
    (ℕ → String) → ProjectState → ProjectState → Result (AgentResponse × ProjectState)
complete_current_task action current next = elim (current_task current) [
  | none ↦ raise (value_error "None is not in list")
  | some _ ↦ do
    next' ← complete_task (record next { action = some (action (task_index current.tasks + 1)) })
    elim (current_epic current) [
      | none ↦ raise attribute_error
      | some _ ↦ ok (respond_done AgentClass.task_completer, next')
    ]
]

abbrev pub is_input_required : Option AgentResponse → Bool
is_input_required none = Bool.false
is_input_required (some response) = elim response.type [
  | ResponseType.input_required ↦ Bool.true
  | _ ↦ Bool.false
]

unfoldable pub human_intervention : Option Step → ProjectState → Result ProjectState
human_intervention none next = raise type_error
human_intervention (some step) next = complete_step next "human_intervention"

-- `run` of HumanInput: the files that need input are only shown.
unfoldable pub take_input :
    Option AgentResponse → Option Step → ProjectState → Result (AgentResponse × ProjectState)
take_input prev_response step next = do
  next' ← if is_input_required prev_response then ok next else human_intervention step next
  ok (respond_done AgentClass.human_input, next')

-- `run` of LegacyHandler, with `self.data["type"]`.
unfoldable pub handle_legacy : String → ProjectState → Result (AgentResponse × ProjectState)
handle_legacy type next =
    if type == "review_task"
    then (complete_step next "review_task" >>= λ next'.
        ok (respond_done AgentClass.legacy_handler, next'))
    else raise (value_error "Unknown reason for calling Legacy Handler with data: ")
