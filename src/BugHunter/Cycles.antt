-- ===== src/BugHunter/Cycles.antt =====
-- The bug hunting cycles of core/agents/bug_hunter.py, with `extract_debugging_logs` of
-- core/ui/base.py.
use gpt_pilot.Prelude.{
  String, Bool, false, not, Option, none, some, List, [], ◌∷◌, ◌==◌, string_eq, option_eq, select,
  update_last, if◌then◌else◌,
}
use gpt_pilot.Prelude.Strings.{is_in, splitlines, join_lines}
use gpt_pilot.Result.{Result, raise, key_error, index_error, attribute_error, ◌>>=◌}
use gpt_pilot.Records.{Iteration, Cycle}
use gpt_pilot.ProjectState.{ProjectState, current_iteration}
use gpt_pilot.ProjectState.Iterations.{change_current_iteration, iteration_of}
use gpt_pilot.Prelude.Dict.{is_some}

pub record UserInput : Type 0 where
  pub text : Option String
  pub button : Option String
  pub cancelled : Bool

-- `if text`
abbrev pub is_text : Option String → Bool
is_text none = false
is_text (some text) = not (text == "")

abbrev pub debug_log_mark : String
debug_log_mark = "PYTHAGORA_DEBUGGING_LOG"

unfoldable pub extract_debugging_logs : Option String → String
extract_debugging_logs none = ""
extract_debugging_logs (some logs) =
    if logs == "" then "" else join_lines (select (is_in debug_log_mark) (splitlines logs))

abbrev pub empty_cycle : Cycle
empty_cycle = record {
  human_readable_instructions = none;
  fix_attempted = none;
  backend_logs = none;
  frontend_logs = none;
  user_feedback = none;
}

abbrev pub or_no_cycles : Option (List Cycle) → List Cycle
or_no_cycles none = []
or_no_cycles (some cycles) = cycles

-- `cycles`, with a slot if there is none.
abbrev pub with_slot : List Cycle → List Cycle
with_slot [] = empty_cycle ∷ []
with_slot (c ∷ cs) = c ∷ cs

abbrev pub ensured : Option (List Cycle) → Option (List Cycle) → List Cycle
ensured current none = with_slot (or_no_cycles current)
ensured current (some cycles) = with_slot cycles

-- `_ensure_bug_hunting_cycles`
unfoldable pub ensure_bug_hunting_cycles : Iteration → ProjectState → Result ProjectState
ensure_bug_hunting_cycles current next =
    if is_some (current_iteration next)
    then change_current_iteration
        (λ (i : Iteration). record i {
          bug_hunting_cycles = some (ensured current.bug_hunting_cycles i.bug_hunting_cycles);
        })
        next
    else raise attribute_error

-- `self.next_state.current_iteration["bug_hunting_cycles"][-1][...] = ...`
abbrev pub change_cycles :
    (Cycle → Cycle) → Option (List Cycle) → ProjectState → Result ProjectState
change_cycles change none next = raise (key_error "bug_hunting_cycles")
change_cycles change (some []) next = raise index_error
change_cycles change (some (c ∷ cs)) next =
    change_current_iteration
      (λ (i : Iteration). record i { bug_hunting_cycles = some (update_last change (c ∷ cs)) }) next

unfoldable pub change_last_cycle : (Cycle → Cycle) → ProjectState → Result ProjectState
change_last_cycle change next =
    iteration_of next >>= λ i. change_cycles change i.bug_hunting_cycles next
