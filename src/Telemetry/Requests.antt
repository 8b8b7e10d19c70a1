-- ===== src/Telemetry/Requests.antt =====
-- `record_llm_request` of core/telemetry/__init__.py, one request after the other.
use gpt_pilot.Prelude.{
  ℕ, ◌+◌, ◌*◌, ◌≡◌, refl, String, Bool, true, false, not, some, List, [], ◌∷◌, ◌++◌, length, select,
  map, ltb, if◌then◌else◌, arith, ==_refl, ◌==◌, string_eq, sym, Bool-cases, inl, inr, ◌∙◌,
}
use gpt_pilot.Prelude.Dict.{Dict, lookup, insert, lookup-insert}
use mathlib.Core.List.{append_assoc, append-nil}
use gpt_pilot.Prelude.Integer.{pos}
use gpt_pilot.Result.{Result, ok, ◌>>=◌}
use gpt_pilot.Telemetry.{
  Telemetry, Value, number, inc, record_llm_request, large_request_threshold,
  slow_request_threshold, second, sum,
}

pub record Request : Type 0 where
  pub tokens : ℕ
  pub elapsed : ℕ
  pub is_error : Bool

abbrev pub record_all : List Request → Telemetry → Result Telemetry
record_all [] t = ok t
record_all (r ∷ rs) t = record_llm_request r.tokens r.elapsed r.is_error t >>= record_all rs

abbrev pub tokens_of : List Request → List ℕ
tokens_of rs = map (λ (r : Request). r.tokens) rs

abbrev pub errors : List Request → List Request
errors rs = select (λ (r : Request). r.is_error) rs

abbrev pub answered : List Request → List Request
answered rs = select (λ (r : Request). not r.is_error) rs

-- The counters of requests, errors and tokens.
pub record Counts (t : Telemetry) (requests failed tokens : ℕ) : Type 0 where
  pub num_llm_requests : lookup "num_llm_requests" t.data_fields ≡ some (number (pos requests))
  pub num_llm_errors : lookup "num_llm_errors" t.data_fields ≡ some (number (pos failed))
  pub num_llm_tokens : lookup "num_llm_tokens" t.data_fields ≡ some (number (pos tokens))

inc_lem :
    (name : String) (t : Telemetry) (m k : ℕ)
    → lookup name t.data_fields ≡ some (number (pos m))
    → inc name (pos k) t
      ≡ ok (record t { data_fields = insert name (number (pos (m + k))) t.data_fields })
unfolding inc
inc_lem name t m k found = rw (inc, found) refl

lookup-insert_other :
    (a b : String) (v : Value) (d : Dict Value)
    → (a == b) ≡ false
    → lookup a (insert b v d) ≡ lookup a d
lookup-insert_other a b v d other = lookup-insert a b v d ∙ rw (other) refl

lookup-insert_same : (a : String) (v : Value) (d : Dict Value) → lookup a (insert a v d) ≡ some v
lookup-insert_same a v d = lookup-insert a a v d ∙ rw (==_refl a) refl

-- The telemetry with new counters after a request.
abbrev noted : ℕ → ℕ → Dict Value → Telemetry → Telemetry
noted n s d t = record t {
  data_fields = d;
  large_requests =
      if ltb large_request_threshold n then t.large_requests ++ n ∷ [] else t.large_requests;
  slow_requests =
      if ltb (slow_request_threshold * second) s
      then t.slow_requests ++ s ∷ []
      else t.slow_requests;
}

abbrev two_counters : String → ℕ → ℕ → Dict Value → Dict Value
two_counters name m requests d =
    insert name (number (pos m)) (insert "num_llm_requests" (number (pos (requests + 1))) d)

record_llm_request-true :
    (t : Telemetry) (requests failed tokens n s : ℕ)
    → Counts t requests failed tokens
    → record_llm_request n s true t
      ≡ ok (noted n s (two_counters "num_llm_errors" (failed + 1) requests t.data_fields) t)
unfolding record_llm_request string_eq
record_llm_request-true t requests failed tokens n s c =
    let first = inc_lem "num_llm_requests" t requests 1 c.num_llm_requests in
    let d = insert "num_llm_requests" (number (pos (requests + 1))) t.data_fields in
    let second =
      inc_lem "num_llm_errors" (record t { data_fields = d }) failed 1
        (lookup-insert_other "num_llm_errors" "num_llm_requests" (number (pos (requests + 1)))
            t.data_fields refl
          ∙ c.num_llm_errors) in
    rw (record_llm_request, first, second) refl

record_llm_request-false :
    (t : Telemetry) (requests failed tokens n s : ℕ)
    → Counts t requests failed tokens
    → record_llm_request n s false t
      ≡ ok (noted n s (two_counters "num_llm_tokens" (tokens + n) requests t.data_fields) t)
unfolding record_llm_request string_eq
record_llm_request-false t requests failed tokens n s c =
    let first = inc_lem "num_llm_requests" t requests 1 c.num_llm_requests in
    let d = insert "num_llm_requests" (number (pos (requests + 1))) t.data_fields in
    let second =
      inc_lem "num_llm_tokens" (record t { data_fields = d }) tokens n
        (lookup-insert_other "num_llm_tokens" "num_llm_requests" (number (pos (requests + 1)))
            t.data_fields refl
          ∙ c.num_llm_tokens) in
    rw (record_llm_request, first, second) refl

Counts-errors :
    (t : Telemetry) (requests failed tokens n s : ℕ)
    → Counts t requests failed tokens
    → Counts
        (noted n s (two_counters "num_llm_errors" (failed + 1) requests t.data_fields) t)
        (requests + 1)
        (failed + 1)
        tokens
unfolding string_eq
Counts-errors t requests failed tokens n s c = record {
  num_llm_requests =
      lookup-insert_other "num_llm_requests" "num_llm_errors" _ _ refl
      ∙ lookup-insert_same "num_llm_requests" _ t.data_fields;
  num_llm_errors = lookup-insert_same "num_llm_errors" _ _;
  num_llm_tokens =
      lookup-insert_other "num_llm_tokens" "num_llm_errors" _ _ refl
      ∙ (lookup-insert_other "num_llm_tokens" "num_llm_requests" _ t.data_fields refl
          ∙ c.num_llm_tokens);
}

Counts-tokens :
    (t : Telemetry) (requests failed tokens n s : ℕ)
    → Counts t requests failed tokens
    → Counts
        (noted n s (two_counters "num_llm_tokens" (tokens + n) requests t.data_fields) t)
        (requests + 1)
        failed
        (tokens + n)
unfolding string_eq
Counts-tokens t requests failed tokens n s c = record {
  num_llm_requests =
      lookup-insert_other "num_llm_requests" "num_llm_tokens" _ _ refl
      ∙ lookup-insert_same "num_llm_requests" _ t.data_fields;
  num_llm_tokens = lookup-insert_same "num_llm_tokens" _ _;
  num_llm_errors =
      lookup-insert_other "num_llm_errors" "num_llm_tokens" _ _ refl
      ∙ (lookup-insert_other "num_llm_errors" "num_llm_requests" _ t.data_fields refl
          ∙ c.num_llm_errors);
}

-- The numbers that belong to the requests.
abbrev pub above : ℕ → List ℕ → List ℕ
above limit ns = select (λ n. ltb limit n) ns

abbrev pub times_of : List Request → List ℕ
times_of rs = map (λ (r : Request). r.elapsed) rs

Counts-same :
    (t : Telemetry) (a a' b b' c c' : ℕ)
    → Counts t a b c
    → a ≡ a'
    → b ≡ b'
    → c ≡ c'
    → Counts t a' b' c'
Counts-same t a a' b b' c c' counts p q r = record {
  num_llm_requests = rw⁻¹ p counts.num_llm_requests;
  num_llm_errors = rw⁻¹ q counts.num_llm_errors;
  num_llm_tokens = rw⁻¹ r counts.num_llm_tokens;
}

append-above :
    (limit n : ℕ) (xs ns : List ℕ)
    → (if ltb limit n then xs ++ n ∷ [] else xs) ++ above limit ns ≡ xs ++ above limit (n ∷ ns)
unfolding select
append-above limit n xs ns = ground (arith, append_assoc xs (n ∷ []) (above limit ns))

-- After requests have been recorded, the counters have grown by the number of the requests, of those that
-- failed, and of the tokens of the others, and the large and the slow ones are listed in order.
pub record_all_lem :
    (rs : List Request) (t : Telemetry) (requests failed tokens : ℕ)
    → Counts t requests failed tokens
    → (t' : Telemetry) × (record_all rs t ≡ ok t')
      × Counts t'
          (requests + length rs)
          (failed + length (errors rs))
          (tokens + sum (tokens_of (answered rs)))
      × (t'.large_requests ≡ t.large_requests ++ above large_request_threshold (tokens_of rs))
      × (t'.slow_requests
          ≡ t.slow_requests ++ above (slow_request_threshold * second) (times_of rs))
unfolding select
record_all_lem [] t requests failed tokens c = (
  t,
  refl,
  Counts-same t _ _ _ _ _ _ c (omega arith) (omega arith) (omega arith),
  sym (append-nil t.large_requests),
  sym (append-nil t.slow_requests),
)
record_all_lem (r ∷ rs) t requests failed tokens c = elim (Bool-cases r.is_error) [
  | inl failing ↦
      let t1 =
        noted r.tokens r.elapsed (two_counters "num_llm_errors" (failed + 1) requests t.data_fields)
          t in
      let (t', e, counts, large, slow) =
        record_all_lem rs t1 (requests + 1) (failed + 1) tokens
          (Counts-errors t requests failed tokens r.tokens r.elapsed c) in
      (
        t',
        rw (failing, record_llm_request-true t requests failed tokens r.tokens r.elapsed c) e,
        Counts-same t' _ _ _ _ _ _ counts (omega arith) (rw (failing) (omega arith))
            (rw (failing) refl),
        large ∙ append-above large_request_threshold r.tokens t.large_requests (tokens_of rs),
        slow
            ∙ append-above (slow_request_threshold * second) r.elapsed t.slow_requests
                (times_of rs),
      )
  | inr answering ↦
      let t1 =
        noted r.tokens r.elapsed
          (two_counters "num_llm_tokens" (tokens + r.tokens) requests t.data_fields) t in
      let (t', e, counts, large, slow) =
        record_all_lem rs t1 (requests + 1) failed (tokens + r.tokens)
          (Counts-tokens t requests failed tokens r.tokens r.elapsed c) in
      (
        t',
        rw (answering, record_llm_request-false t requests failed tokens r.tokens r.elapsed c) e,
        Counts-same t' _ _ _ _ _ _ counts (omega arith) (rw (answering) refl)
            (rw (answering) (omega arith)),
        large ∙ append-above large_request_threshold r.tokens t.large_requests (tokens_of rs),
        slow
            ∙ append-above (slow_request_threshold * second) r.elapsed t.slow_requests
                (times_of rs),
      )
]
