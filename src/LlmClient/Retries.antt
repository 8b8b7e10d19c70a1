-- ===== src/LlmClient/Retries.antt =====
-- When the loop of `__call__` ends, and what it returns.
use gpt_pilot.Prelude.{
  ◌⊎◌, ℕ, zero, suc, ◌-◌, ◌≤◌, ◌<◌, String, ◌≡◌, refl, Option, none, some, List, ◌==◌, nat_eq,
  string_eq, arith, inl, inr, Bool-cases, Option-cases,
}
use gpt_pilot.Result.{Result, ok, value_error, ◌>>=◌, Result-cases}
use gpt_pilot.Convo.{Message}
use gpt_pilot.LlmClient.{
  Client, Answer, answered, connection_error, read_timeout, read_error, generic_error, rate_limited,
  not_found, authentication_error, status_error, Status, LlmRequestLog, Response, plain, parsed,
  Loop, Round, again, finished, ask, give_up, log_error, ask_again, parse, handle, attempt, round,
  call_loop, call,
}

-- What the parser makes of a response.
abbrev pub result_of : {A : Type 0} → Option (String → Result A) → String → Result (Response A)
result_of none response = ok (plain response)
result_of (some p) response = p response >>= λ value. ok (parsed value)

module _ {A : Type 0} (client : Client A) where
  open client use {World, error_handler, parser, max_retries}

  remaining-log_error :
      (message : String) (l l' : Loop client)
      → log_error client message l ≡ again l'
      → l'.remaining ≡ l.remaining
  unfolding log_error
  remaining-log_error message l l' h = ground (arith, h)

  remaining-ask_again :
      (response message : String) (l l' : Loop client)
      → ask_again client response message l ≡ again l'
      → l'.remaining ≡ l.remaining
  unfolding ask_again log_error
  remaining-ask_again response message l l' h = ground (arith, h)

  remaining-parse :
      (response : String) (l l' : Loop client)
      → parse client response l ≡ again l'
      → l'.remaining ≡ l.remaining
  unfolding parse
  remaining-parse response l l' h = elim (Option-cases parser) [
    | inl no_parser ↦ absurd (ground (arith, no_parser, h))
    | inr (p, has_parser) ↦ elim (Result-cases (p response)) [
      | inl (value, ok_value) ↦ absurd (ground (arith, has_parser, ok_value, h))
      | inr (value_error message, raised) ↦
          remaining-ask_again response message l l' (ground (arith, has_parser, raised, h))
      | inr (e, raised) ↦ absurd (ground (arith, has_parser, raised, h))
    ]
  ]

  remaining-handle :
      (answer : Answer) (l l' : Loop client)
      → handle client answer l ≡ again l'
      → l'.remaining ≡ l.remaining
  unfolding handle ask log_error
  remaining-handle (answered response prompt completion) l l' h = remaining-parse response _ l' h
  remaining-handle (connection_error err) l l' h = ground (arith, h)
  remaining-handle (read_timeout err) l l' h = ground (arith, h)
  remaining-handle (read_error err) l l' h = ground (arith, h)
  remaining-handle (generic_error err) l l' h = ground (arith, h)
  remaining-handle (rate_limited err none err_msg) l l' h = ground (arith, h)
  remaining-handle (rate_limited err (some zero) err_msg) l l' h = ground (arith, h)
  remaining-handle (rate_limited err (some (suc n)) err_msg) l l' h = ground (arith, h)
  remaining-handle (not_found err_msg) l l' h = ground (arith, h)
  remaining-handle (authentication_error err_msg) l l' h = ground (arith, h)
  remaining-handle (status_error err err_code) l l' h = ground (arith, h)

  remaining-attempt :
      (l l' : Loop client) → attempt client l ≡ again l' → l'.remaining ≡ l.remaining - 1
  unfolding attempt
  remaining-attempt l l' h = remaining-handle _ _ l' h

  remaining-round :
      (l l' : Loop client)
      → error_handler ≡ none
      → round client l ≡ again l'
      → suc l'.remaining ≤ l.remaining
  unfolding round give_up ask
  remaining-round l l' alone h = elim (Bool-cases (l.remaining == 0)) [
    | inl out ↦ absurd (ground (arith, alone, out, h))
    | inr left ↦ ground (arith, left, remaining-attempt l l' (ground (arith, left, h)))
  ]

  Round-cases :
      (r : Round client)
      → ((l' : Loop client) × (r ≡ again l'))
        ⊎ ((result : Result (Response A × LlmRequestLog)) × (w : World) × (r ≡ finished result w))
  Round-cases (again l') = inl (l', refl)
  Round-cases (finished result w) = inr (result, w, refl)

  call_loop_ends :
      (fuel : ℕ) (l : Loop client)
      → error_handler ≡ none
      → l.remaining < fuel
      → (result : Result (Response A × LlmRequestLog)) × (w : World) × (call_loop client fuel l
          ≡ some (result, w))
  unfolding call_loop
  call_loop_ends zero l alone enough = absurd (omega (arith, enough))
  call_loop_ends (suc fuel) l alone enough = elim (Round-cases (round client l)) [
    | inl (l', next) ↦
        let fewer = remaining-round l l' alone next in
        let (result, w, ends) = call_loop_ends fuel l' alone (omega (arith, enough, fewer)) in
        (result, w, ground (arith, next, ends))
    | inr (result, w, done) ↦ (result, w, ground (arith, done))
  ]

  -- Where nobody can be asked to go on, a call ends: after one round more than there are retries the
  -- loop has returned or raised, whatever the provider answers.
  pub call_ends :
      (convo : List Message) (w : World)
      → error_handler ≡ none
      → (result : Result (Response A × LlmRequestLog)) × (w' : World) × (call client
            (suc max_retries)
            convo
            w
          ≡ some (result, w'))
  unfolding call
  call_ends convo w alone = call_loop_ends (suc max_retries) _ alone (omega arith)

  -- The log of a call that returns: the last response is there, the parser took it, and it is logged
  -- as a success.
  pub record IsReturned (response : Response A) (log : LlmRequestLog) : Type 0 where
    pub received : String
    pub response_logged : log.response ≡ some received
    pub accepted : result_of parser received ≡ ok response
    pub success : log.status ≡ Status.success
    pub no_error : log.error ≡ none

  IsReturned-parse :
      (received : String) (l : Loop client) (response : Response A) (log : LlmRequestLog)
      (w : World)
      → l.log.response ≡ some received
      → l.log.status ≡ Status.success
      → l.log.error ≡ none
      → parse client received l ≡ finished (ok (response, log)) w
      → IsReturned response log
  unfolding parse ask_again log_error
  IsReturned-parse received l response log w logged success no_error h =
      elim (Option-cases parser) [
        | inl no_parser ↦ record {
          received = received;
          response_logged = ground (arith, logged, no_parser, h);
          accepted = ground (arith, no_parser, h);
          success = ground (arith, success, no_parser, h);
          no_error = ground (arith, no_error, no_parser, h);
        }
        | inr (p, has_parser) ↦ elim (Result-cases (p received)) [
          | inl (value, parsed_ok) ↦ record {
            received = received;
            response_logged = ground (arith, logged, has_parser, parsed_ok, h);
            accepted = ground (arith, has_parser, parsed_ok, h);
            success = ground (arith, success, has_parser, parsed_ok, h);
            no_error = ground (arith, no_error, has_parser, parsed_ok, h);
          }
          | inr (value_error message, raised) ↦ absurd (ground (arith, has_parser, raised, h))
          | inr (e, raised) ↦ absurd (ground (arith, has_parser, raised, h))
        ]
      ]

  IsReturned-handle :
      (answer : Answer) (l : Loop client) (response : Response A) (log : LlmRequestLog) (w : World)
      → l.log.status ≡ Status.success
      → l.log.error ≡ none
      → handle client answer l ≡ finished (ok (response, log)) w
      → IsReturned response log
  unfolding handle log_error
  IsReturned-handle (answered received prompt completion) l response log w success no_error h =
      IsReturned-parse received _ response log w refl success no_error h
  IsReturned-handle (connection_error err) l response log w success no_error h =
      absurd (ground (arith, h))
  IsReturned-handle (read_timeout err) l response log w success no_error h =
      absurd (ground (arith, h))
  IsReturned-handle (read_error err) l response log w success no_error h =
      absurd (ground (arith, h))
  IsReturned-handle (generic_error err) l response log w success no_error h =
      absurd (ground (arith, h))
  IsReturned-handle (rate_limited err none m) l response log w success no_error h =
      absurd (ground (arith, h))
  IsReturned-handle (rate_limited err (some zero) m) l response log w success no_error h =
      absurd (ground (arith, h))
  IsReturned-handle (rate_limited err (some (suc n)) m) l response log w success no_error h =
      absurd (ground (arith, h))
  IsReturned-handle (not_found m) l response log w success no_error h = absurd (ground (arith, h))
  IsReturned-handle (authentication_error m) l response log w success no_error h =
      absurd (ground (arith, h))
  IsReturned-handle (status_error err m) l response log w success no_error h =
      absurd (ground (arith, h))

  IsReturned-attempt :
      (l : Loop client) (response : Response A) (log : LlmRequestLog) (w : World)
      → attempt client l ≡ finished (ok (response, log)) w
      → IsReturned response log
  unfolding attempt
  IsReturned-attempt l response log w h = IsReturned-handle _ _ response log w refl refl h

  IsReturned-round :
      (l : Loop client) (response : Response A) (log : LlmRequestLog) (w : World)
      → round client l ≡ finished (ok (response, log)) w
      → IsReturned response log
  unfolding round give_up
  IsReturned-round l response log w h = elim (Bool-cases (l.remaining == 0)) [
    | inl out ↦ absurd (ground (arith, out, h))
    | inr left ↦ IsReturned-attempt l response log w (ground (arith, left, h))
  ]

  IsReturned-call_loop :
      (fuel : ℕ) (l : Loop client) (response : Response A) (log : LlmRequestLog) (w : World)
      → call_loop client fuel l ≡ some (ok (response, log), w)
      → IsReturned response log
  unfolding call_loop
  IsReturned-call_loop zero l response log w h = absurd (ground (arith, h))
  IsReturned-call_loop (suc fuel) l response log w h = elim (Round-cases (round client l)) [
    | inl (l', next) ↦ IsReturned-call_loop fuel l' response log w (ground (arith, next, h))
    | inr (result, w', done) ↦ IsReturned-round l response log w (ground (arith, done, h))
  ]

  -- However many rounds it takes and whoever is asked in between: a call that returns gives what the
  -- parser made of the last response, the text itself where there is no parser, and its log has that
  -- response, the status of a success and no error.
  pub call-IsReturned :
      (fuel : ℕ) (convo : List Message) (w : World) (response : Response A) (log : LlmRequestLog)
      (w' : World)
      → call client fuel convo w ≡ some (ok (response, log), w')
      → IsReturned response log
  unfolding call
  call-IsReturned fuel convo w response log w' h = IsReturned-call_loop fuel _ response log w' h
