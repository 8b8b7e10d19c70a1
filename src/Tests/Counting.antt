-- ===== src/Tests/Counting.antt =====
-- Telemetry of three requests: one large and slow, one that failed, one small.
use gpt_pilot.Prelude.{
  ℕ, ◌+◌, ◌*◌, ◌≡◌, refl, ◌≤◌, ◌<◌, Bool, true, false, none, some, List, [], ◌∷◌, ◌++◌, length,
  string_eq, ◌*◌, arith,
}
use gpt_pilot.Result.{ok, raise, api_error}
use gpt_pilot.Telemetry.{
  Telemetry, counters, large_request_threshold, slow_request_threshold, second, sum, statistics_of,
  least, greatest, send, Sending,
}
use gpt_pilot.Telemetry.Requests.{
  Request, record_all, Counts, tokens_of, times_of, answered, errors, above, record_all_lem,
}
use gpt_pilot.Telemetry.Bounds.{statistics_of_lem}
use gpt_pilot.Prelude.Dict.{lookup}

abbrev zeros : Telemetry
zeros = record {
  enabled = true;
  endpoint = some "https://example.com";
  data_fields = counters;
  start_time = none;
  end_time = none;
  large_requests = [];
  slow_requests = [];
}

abbrev request : ℕ → ℕ → Bool → Request
request tokens elapsed is_error = record { tokens = tokens; elapsed = elapsed; is_error = is_error }

abbrev three : List Request
three = request 60000 400700 false ∷ request 10 1200 true ∷ request 200 2000 false ∷ []

zeros-Counts : Counts zeros 0 0 0
unfolding lookup string_eq
zeros-Counts = record { num_llm_requests = refl; num_llm_errors = refl; num_llm_tokens = refl }

record_all_lem_example :
    (t : Telemetry) × (record_all three zeros ≡ ok t)
    × Counts t (0 + length three) (0 + length (errors three)) (0 + sum (tokens_of (answered three)))
    × (t.large_requests ≡ [] ++ above large_request_threshold (tokens_of three))
    × (t.slow_requests ≡ [] ++ above (slow_request_threshold * second) (times_of three))
record_all_lem_example = record_all_lem three zeros 0 0 0 zeros-Counts

-- Two slow requests of 300.7 and of 300.9 seconds: the average of 300 seconds is below both.
statistics_of_lem_example :
    (avg : ℕ) × (median : ℕ) × ((statistics_of second (300700 ∷ 300900 ∷ [])).avg ≡ some avg)
    × ((statistics_of second (300700 ∷ 300900 ∷ [])).median ≡ some median)
    × ((statistics_of second (300700 ∷ 300900 ∷ [])).min ≡ some (least 300700 (300900 ∷ [])))
    × ((statistics_of second (300700 ∷ 300900 ∷ [])).max ≡ some (greatest 300700 (300900 ∷ [])))
    × (least 300700 (300900 ∷ []) < avg + second)
    × (avg ≤ greatest 300700 (300900 ∷ []))
    × (least 300700 (300900 ∷ []) ≤ median)
    × (median ≤ greatest 300700 (300900 ∷ []))
statistics_of_lem_example = statistics_of_lem second 300700 (300900 ∷ []) (omega arith)

cut_to_seconds : (statistics_of second (300700 ∷ 300900 ∷ [])).avg ≡ some 300000
unfolding statistics_of
cut_to_seconds = refl

median_of_three : (statistics_of 1 (60000 ∷ 90000 ∷ 51000 ∷ [])).median ≡ some 60000
unfolding statistics_of
median_of_three = refl

-- The server's refusal is not caught, as it is no RequestError.
refused : (send false 5 Sending.bad_status zeros).0 ≡ raise (api_error "HTTPStatusError")
unfolding send
refused = refl
