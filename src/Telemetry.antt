-- ===== src/Telemetry.antt =====
-- class Telemetry of core/telemetry/__init__.py. What describes the system and the configuration, the
-- time, and how the request to the server ends, are arguments. A crash is recorded without its stack.
-- The elapsed times of requests, which are floats, are whole numbers of milliseconds.
pub mod Requests
pub mod Bounds
use Prim.Native.Nat.{◌/◌}
use gpt_pilot.Prelude.{
  ℕ, zero, suc, ◌+◌, ◌*◌, ◌-◌, String, Bool, true, false, not, ◌&&◌, ◌||◌, Option, none, some, List,
  [], ◌∷◌, ◌++◌, length, ltb, leb, if◌then◌else◌,
}
use gpt_pilot.Prelude.Dict.{Dict, lookup, insert, is_some}
use gpt_pilot.Prelude.Integer.{ℤ, pos, ◌+ℤ◌}
use gpt_pilot.Result.{Result, ok, raise, type_error, api_error, ◌>>=◌}

abbrev pub large_request_threshold : ℕ
large_request_threshold = 50000

abbrev pub slow_request_threshold : ℕ
slow_request_threshold = 300

-- A second, in the unit of the elapsed times.
abbrev pub second : ℕ
second = 1000

pub record Statistics : Type 0 where
  pub num_requests : ℕ
  pub min : Option ℕ
  pub max : Option ℕ
  pub avg : Option ℕ
  pub median : Option ℕ

pub data Value : Type 0 where
  null : Value
  text : String → Value
  number : ℤ → Value
  flag : Bool → Value
  texts : List String → Value
  statistics : Statistics → Value

pub record Telemetry : Type 0 where
  pub enabled : Bool
  pub endpoint : Option String
  pub data_fields : Dict Value
  pub start_time : Option ℕ
  pub end_time : Option ℕ
  pub large_requests : List ℕ
  pub slow_requests : List ℕ

-- `self.data.update(...)`
abbrev pub update : Dict Value → Dict Value → Dict Value
update d [] = d
update d ((name, value) ∷ more) = update (insert name value d) more

abbrev pub counters : Dict Value
counters =
    ("num_llm_requests", number (pos 0))
    ∷ ("num_llm_errors", number (pos 0))
    ∷ ("num_llm_tokens", number (pos 0))
    ∷ ("num_steps", number (pos 0))
    ∷ ("num_commands", number (pos 0))
    ∷ ("num_inputs", number (pos 0))
    ∷ ("num_files", number (pos 0))
    ∷ ("num_lines", number (pos 0))
    ∷ ("num_tasks", number (pos 0))
    ∷ ("elapsed_time", number (pos 0))
    ∷ ("created_lines", number (pos 0))
    ∷ ("end_result", null)
    ∷ ("is_continuation", flag false)
    ∷ ("user_feedback", null)
    ∷ ("crash_diagnostics", null)
    ∷ ("large_requests", null)
    ∷ ("slow_requests", null)
    ∷ []

unfoldable pub clear_counters : Telemetry → Telemetry
clear_counters t = record t {
  data_fields = update t.data_fields counters;
  start_time = none;
  end_time = none;
  large_requests = [];
  slow_requests = [];
}

-- The base data, with what the system and the configuration give.
unfoldable pub clear_data : Dict Value → Telemetry → Telemetry
clear_data system t = clear_counters (record t {
  data_fields = update system (
      ("extension_version", null)
      ∷ ("is_extension", flag false)
      ∷ ("initial_prompt", null)
      ∷ ("updated_prompt", null)
      ∷ ("is_complex_app", null)
      ∷ ("templates", null)
      ∷ ("example_project", null)
      ∷ ("user_contact", null)
      ∷ ("app_id", null)
      ∷ ("architecture", null)
      ∷ ("docsets_used", texts [])
      ∷ ("doc_snippets_stored", number (pos 0))
      ∷ []);
})

unfoldable pub set : String → Value → Telemetry → Telemetry
set name value t =
    if is_some (lookup name t.data_fields)
    then record t { data_fields = insert name value t.data_fields }
    else t

-- `value + n`, where only a number, or a flag that counts as 0 or 1, can be increased.
abbrev pub increased : Value → ℤ → Result Value
increased (number m) n = ok (number (m +ℤ n))
increased (flag false) n = ok (number n)
increased (flag true) n = ok (number (pos 1 +ℤ n))
increased _ n = raise type_error

abbrev pub inc_found : String → Option Value → ℤ → Telemetry → Result Telemetry
inc_found name none n t = ok t
inc_found name (some value) n t =
    increased value n >>= λ value'. ok (record t { data_fields = insert name value' t.data_fields })

unfoldable pub inc : String → ℤ → Telemetry → Result Telemetry
inc name n t = inc_found name (lookup name t.data_fields) n t

-- The time is in milliseconds.
unfoldable pub start : ℕ → Telemetry → Telemetry
start now t = record t { start_time = some now; end_time = none }

unfoldable pub stop : ℕ → Telemetry → Telemetry
stop now t = elim (t.start_time) [
  | none ↦ t
  | some begun ↦ record t {
    end_time = some now;
    data_fields = insert "elapsed_time" (number (pos ((now - begun) / second))) t.data_fields;
  }
]

unfoldable pub record_llm_request : ℕ → ℕ → Bool → Telemetry → Result Telemetry
record_llm_request tokens elapsed is_error t = do
  t1 ← inc "num_llm_requests" (pos 1) t
  t2 ← if is_error then inc "num_llm_errors" (pos 1) t1 else inc "num_llm_tokens" (pos tokens) t1
  ok (record t2 {
    large_requests =
        if ltb large_request_threshold tokens
        then t2.large_requests ++ tokens ∷ []
        else t2.large_requests;
    slow_requests =
        if ltb (slow_request_threshold * second) elapsed
        then t2.slow_requests ++ elapsed ∷ []
        else t2.slow_requests;
  })

abbrev pub insert_number : ℕ → List ℕ → List ℕ
insert_number n [] = n ∷ []
insert_number n (m ∷ ms) = if leb n m then n ∷ m ∷ ms else m ∷ insert_number n ms

-- `sorted(...)`
abbrev pub sorted : List ℕ → List ℕ
sorted [] = []
sorted (n ∷ ns) = insert_number n (sorted ns)

abbrev pub sum : List ℕ → ℕ
sum [] = 0
sum (n ∷ ns) = n + sum ns

abbrev pub least : ℕ → List ℕ → ℕ
least n [] = n
least n (m ∷ ms) = least (if ltb m n then m else n) ms

abbrev pub greatest : ℕ → List ℕ → ℕ
greatest n [] = n
greatest n (m ∷ ms) = greatest (if ltb n m then m else n) ms

abbrev pub get_elem? : List ℕ → ℕ → Option ℕ
get_elem? [] i = none
get_elem? (n ∷ ns) zero = some n
get_elem? (n ∷ ns) (suc i) = get_elem? ns i

-- `unit` is what counts as one in the floor division: one token, or the milliseconds of a second.
unfoldable pub statistics_of : ℕ → List ℕ → Statistics
statistics_of unit [] = record {
  num_requests = 0;
  min = none;
  max = none;
  avg = none;
  median = none;
}
statistics_of unit (n ∷ ns) = record {
  num_requests = length (n ∷ ns);
  min = some (least n ns);
  max = some (greatest n ns);
  avg = some (sum (n ∷ ns) / (length (n ∷ ns) * unit) * unit);
  median = get_elem? (sorted (n ∷ ns)) (length (n ∷ ns) / 2);
}

unfoldable pub calculate_statistics : Telemetry → Telemetry
calculate_statistics t = record t {
  data_fields =
      insert "slow_requests" (statistics (statistics_of second t.slow_requests))
        (insert "large_requests" (statistics (statistics_of 1 t.large_requests)) t.data_fields);
}

-- How the request ends: `raise_for_status` raises an error that is no RequestError.
pub data Sending : Type 0 where
  sent request_error bad_status : Sending

abbrev pub stop_if_running : ℕ → Telemetry → Telemetry
stop_if_running now t = if is_some t.start_time && not (is_some t.end_time) then stop now t else t

abbrev pub after_sending : Sending → Telemetry → Result (Unit {0}) × Telemetry
after_sending sent t = (ok tt, set "is_continuation" (flag true) (clear_counters t))
after_sending request_error t = (ok tt, t)
after_sending bad_status t = (raise (api_error "HTTPStatusError"), t)

-- `disabled` is whether DISABLE_TELEMETRY is set.
unfoldable pub send : Bool → ℕ → Sending → Telemetry → Result (Unit {0}) × Telemetry
send disabled now sending t =
    if not t.enabled || disabled || not (is_some t.endpoint)
    then (ok tt, t)
    else after_sending sending (calculate_statistics (stop_if_running now t))
