-- ===== src/Tests/Calls.antt =====
-- A call of the LLM: the connection fails, the first answer is not parsed, the second one is.
use gpt_pilot.Prelude.{
  ℕ, String, ◌≡◌, refl, none, some, List, [], ◌∷◌, ◌==◌, string_eq, nat_eq, if◌then◌else◌,
}
use gpt_pilot.Result.{Result, ok, raise, value_error}
use gpt_pilot.Convo.{Role, Message}
use gpt_pilot.Convo.Adding.{add, dedent}
use gpt_pilot.LlmClient.{
  Client, Answer, answered, connection_error, LlmRequestLog, Response, parsed, call, call_loop,
  round, attempt, handle, parse, ask_again, log_error,
}
use gpt_pilot.LlmClient.Retries.{IsReturned, call_ends, call-IsReturned}

abbrev next_answer : List Answer → Answer × List Answer
next_answer [] = (connection_error "gone", [])
next_answer (a ∷ answers) = (a, answers)

abbrev yes_only : String → Result ℕ
yes_only s = if s == "yes" then ok 1 else raise (value_error "not yes")

abbrev scripted : Client ℕ
scripted = record {
  World = List Answer;
  request = λ convo w. next_answer w;
  error_handler = none;
  parser = some yes_only;
  max_retries = 3;
}

abbrev question : List Message
question = record { role = Role.user; content = "yes or no?"; name = none } ∷ []

abbrev answers : List Answer
answers = connection_error "reset" ∷ answered "no" 3 1 ∷ answered "yes" 7 1 ∷ []

third_time :
    (log : LlmRequestLog) × (call scripted 4 question answers ≡ some (ok (parsed 1, log), []))
    × (log.prompt_tokens ≡ 10)
unfolding call call_loop round attempt handle parse ask_again log_error add dedent string_eq nat_eq
third_time = (_, refl, refl)

call-IsReturned_example : IsReturned scripted (parsed 1) third_time.0
call-IsReturned_example =
    call-IsReturned scripted 4 question answers (parsed 1) third_time.0 [] third_time.1

call_ends_example :
    (result : Result (Response ℕ × LlmRequestLog)) × (w : List Answer) × (call scripted 4 question
        []
      ≡ some (result, w))
call_ends_example = call_ends scripted question [] refl

-- An empty answer that is not parsed is not asked for again: it cannot be added to the conversation.
empty_answer :
    call scripted 4 question (answered "" 3 0 ∷ [])
    ≡ some (raise (value_error "Empty message content"), [])
unfolding call call_loop round attempt handle parse ask_again add string_eq nat_eq
empty_answer = refl
