-- ===== src/BugHunter.antt =====
-- class BugHunter of core/agents/bug_hunter.py. The answers of the user and the LLM are
-- arguments; the prompts are left out, except that the texts of the earlier cycles and the instructions
-- for the test are read for them, which may raise. What a method has changed before it raises is not kept.
pub mod Missing
pub mod Outcomes
pub mod Testing
pub mod Cycles
unfoldable pub use Cycles.*
use gpt_pilot.Prelude.{
  String, Bool, true, false, not, ◌||◌, Option, none, some, List, [], ◌∷◌, ◌++◌, ◌==◌, string_eq,
  option_eq, select, last?, update_last, all_but_last, if◌then◌else◌,
}
use gpt_pilot.Prelude.Strings.{is_in, splitlines, join_lines}
use gpt_pilot.Result.{
  Result, ok, raise, key_error, value_error, index_error, attribute_error, subscript, refuse_if,
  ◌>>=◌,
}
use gpt_pilot.Records.{Iteration, IterationStatus, Cycle}
use gpt_pilot.ProjectState.{ProjectState, current_iteration, current_task, complete_iteration}
use gpt_pilot.ProjectState.Iterations.{change_current_iteration, set_status, iteration_of}
use gpt_pilot.Agents.{AgentClass, AgentResponse, respond_done}
use gpt_pilot.Prelude.Dict.{is_some}

-- The answers when the user has tested the app.
pub record TestAnswers : Type 0 where
  pub is_fixed : UserInput
  pub feedback : UserInput
  pub backend_logs : Option String
  pub frontend_logs : Option String

-- `if awaiting_user_test`, with whether feedback is asked for next.
unfoldable pub ask_if_fixed : UserInput → Bool → ProjectState → Result (Bool × ProjectState)
ask_if_fixed answer awaiting_bug_reproduction next = do
  next1 ← change_last_cycle (λ (c : Cycle). record c { fix_attempted = some true }) next
  if answer.button == some "yes"
      then (complete_iteration next1 >>= λ next2. ok (awaiting_bug_reproduction, next2))
      else if answer.button == some "start_pair_programming"
      then (set_status IterationStatus.start_pair_programming next1 >>= λ next2.
          ok (awaiting_bug_reproduction, next2))
      else ok (true, next1)

-- `if awaiting_bug_reproduction`
unfoldable pub ask_for_feedback : TestAnswers → ProjectState → Result ProjectState
ask_for_feedback answers next =
    if answers.feedback.button == some "done"
    then complete_iteration next
    else if answers.feedback.button == some "start_pair_programming"
    then set_status IterationStatus.start_pair_programming next
    else do
      next1 ←
          change_last_cycle
            (λ (c : Cycle). record c {
              backend_logs = some (extract_debugging_logs answers.backend_logs);
              frontend_logs = some (extract_debugging_logs answers.frontend_logs);
              user_feedback = answers.feedback.text;
            })
            next
      set_status IterationStatus.hunting_for_bug next1

unfoldable pub ask_user_to_test :
    TestAnswers
    → Bool
    → Bool
    → Iteration
    → ProjectState
    → Result (Option AgentResponse × ProjectState)
ask_user_to_test answers awaiting_bug_reproduction awaiting_user_test current next = do
  next1 ← ensure_bug_hunting_cycles current next
  test_instructions ← subscript "bug_reproduction_description" current.bug_reproduction_description
  (awaiting, next2) ←
      if awaiting_user_test
      then ask_if_fixed answers.is_fixed awaiting_bug_reproduction next1
      else ok (awaiting_bug_reproduction, next1)
  next3 ← if awaiting then ask_for_feedback answers next2 else ok next2
  ok (some (respond_done AgentClass.bug_hunter), next3)

-- The texts of the cycles that are put into the conversation.
unfoldable pub texts_of : List Cycle → Result (List String)
texts_of [] = ok []
texts_of (c ∷ cs) = do
  text ← subscript "human_readable_instructions" c.human_readable_instructions
  filled ← refuse_if (text == "") (value_error "Empty message content")
  texts ← texts_of cs
  ok (text ∷ texts)

-- `json.loads(... or "[]")` does not raise. What JSON is, is a parameter.
abbrev pub can_load : (String → Bool) → Option String → Bool
can_load is_json none = true
can_load is_json (some text) = text == "" || is_json text

-- The test instructions of the current task of `s`; a JSONDecodeError is a ValueError.
unfoldable pub load_test_instructions : (String → Bool) → ProjectState → Result (Unit {0})
load_test_instructions is_json s = elim (current_task s) [
  | none ↦ raise attribute_error
  | some task ↦ refuse_if (not (can_load is_json task.test_instructions)) (value_error "")
]

-- `current` is the current iteration of the current state `s`.
unfoldable pub generate_iteration_convo_so_far :
    (String → Bool) → Bool → ProjectState → Iteration → Result (List String)
generate_iteration_convo_so_far is_json omit_last_cycle s current =
    let cycles = or_no_cycles current.bug_hunting_cycles in
    load_test_instructions is_json s >>= λ loaded.
    texts_of (if omit_last_cycle then all_but_last cycles else cycles)

-- `any(c["fix_attempted"] for c in ...)`
unfoldable pub any_fix_attempted : List Cycle → Result Bool
any_fix_attempted [] = ok false
any_fix_attempted (c ∷ cs) =
    let rest = any_fix_attempted cs in
    subscript "fix_attempted" c.fix_attempted >>= λ attempted. if attempted then ok true else rest

unfoldable pub set_data_for_next_hunting_cycle :
    String → IterationStatus → Iteration → ProjectState → Result ProjectState
set_data_for_next_hunting_cycle instructions new_status current next = do
  i ← iteration_of next
  cycles ← subscript "bug_hunting_cycles" i.bug_hunting_cycles
  earlier ← subscript "bug_hunting_cycles" current.bug_hunting_cycles
  attempted ← any_fix_attempted earlier
  change_current_iteration
      (λ (i : Iteration). record i {
        description = some instructions;
        bug_hunting_cycles = some (
            cycles
            ++ record empty_cycle {
              human_readable_instructions = some instructions;
              fix_attempted = some attempted;
            }
              ∷ []);
        status = some new_status;
      })
      next

-- `instructions` is the text that the user has approved, `identified` the conclusion of the LLM.
unfoldable pub check_logs :
    (String → Bool)
    → String
    → Bool
    → ProjectState
    → Iteration
    → ProjectState
    → Result (Option AgentResponse × ProjectState)
check_logs is_json instructions identified s current next = do
  texts ← generate_iteration_convo_so_far is_json false s current
  next1 ←
      set_data_for_next_hunting_cycle instructions
        (if identified then IterationStatus.awaiting_bug_fix else IterationStatus.awaiting_logging)
        current next
  ok (some (respond_done AgentClass.bug_hunter), next1)

-- What the user chooses in pair programming: other choices than these two go round the loop again.
pub data Ending : Type 0 where
  done : Ending
  -- The instructions that were made from the last hint, which the user has approved.
  solution_hint : String → Ending

pub data PairRound : Type 0 where
  question tell_me_more other no_choice : PairRound

abbrev pub start_round : String → Iteration → ProjectState → Result ProjectState
start_round initial_explanation current next = do
  next1 ←
      change_current_iteration
        (λ (i : Iteration). record i { initial_explanation = some initial_explanation }) next
  hint ← subscript "bug_reproduction_description" current.bug_reproduction_description
  ok next1

abbrev pub pair_rounds : String → List PairRound → Iteration → ProjectState → Result ProjectState
pair_rounds initial_explanation [] current next = ok next
pair_rounds initial_explanation (r ∷ rs) current next =
    start_round initial_explanation current next >>= pair_rounds initial_explanation rs current

abbrev pub end_pairing : Ending → Iteration → ProjectState → Result ProjectState
end_pairing done current next = complete_iteration next
end_pairing (solution_hint instructions) current next =
    set_data_for_next_hunting_cycle instructions IterationStatus.awaiting_bug_fix current next

unfoldable pub start_pair_programming :
    (String → Bool)
    → String
    → List PairRound
    → Ending
    → ProjectState
    → Iteration
    → ProjectState
    → Result (Option AgentResponse × ProjectState)
start_pair_programming is_json initial_explanation rounds ending s current next = do
  texts ← generate_iteration_convo_so_far is_json true s current
  next1 ← pair_rounds initial_explanation rounds current next
  next2 ← start_round initial_explanation current next1
  next3 ← end_pairing ending current next2
  ok (some (respond_done AgentClass.bug_hunter), next3)

-- All answers of the user and the LLM.
pub record Answers : Type 0 where
  pub reproduction : String
  pub test : TestAnswers
  pub instructions : String
  pub identified : Bool
  pub initial_explanation : String
  pub rounds : List PairRound
  pub ending : Ending

unfoldable pub get_bug_reproduction_instructions : String → ProjectState → Result ProjectState
get_bug_reproduction_instructions steps =
    change_current_iteration
      (λ (i : Iteration). record i { bug_reproduction_description = some steps })

abbrev pub has_logs : Option Cycle → Bool
has_logs none = false
has_logs (some cycle) = is_text cycle.backend_logs || is_text cycle.frontend_logs

abbrev pub hunt :
    (String → Bool)
    → Option IterationStatus
    → Answers
    → ProjectState
    → Iteration
    → ProjectState
    → Result (Option AgentResponse × ProjectState)
hunt is_json (some IterationStatus.hunting_for_bug) a s current next =
    if has_logs (last? (or_no_cycles current.bug_hunting_cycles))
    then check_logs is_json a.instructions a.identified s current next
    else ask_user_to_test a.test true false current next
hunt is_json (some IterationStatus.awaiting_user_test) a s current next =
    ask_user_to_test a.test false true current next
hunt is_json (some IterationStatus.awaiting_bug_reproduction) a s current next =
    ask_user_to_test a.test true false current next
hunt is_json (some IterationStatus.start_pair_programming) a s current next =
    start_pair_programming is_json a.initial_explanation a.rounds a.ending s current next
hunt is_json _ a s current next = ok (none, next)

-- `run`, which returns None in any other status.
unfoldable pub hunt_bug :
    (String → Bool)
    → Answers
    → ProjectState
    → ProjectState
    → Result (Option AgentResponse × ProjectState)
hunt_bug is_json a current next = do
  i ← iteration_of current
  next1 ←
      if is_some i.bug_reproduction_description
      then ok next
      else get_bug_reproduction_instructions a.reproduction next
  hunt is_json i.status a current i next1
