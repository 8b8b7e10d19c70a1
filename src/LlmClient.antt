-- ===== src/LlmClient.antt =====
-- `BaseLLMClient.__call__` of core/llm/base.py: requests to the LLM until one is answered and parsed.
-- What the provider's library answers or raises, the handler that asks the user, and the parser are
-- arguments. The time that a request takes, and the text that tells the user of a rate limit, are not
-- modelled.
pub mod Retries
use Prim.Native.String
use text.Mathlib.Text.{starts_with}
use gpt_pilot.Prelude.{
  ℕ, zero, suc, ◌+◌, ◌-◌, String, Bool, true, false, not, ◌&&◌, ◌||◌, Option, none, some, List, [],
  ◌∷◌, ◌++◌, ◌==◌, nat_eq, string_eq, contains, if◌then◌else◌,
}
use gpt_pilot.Result.{Result, ok, raise, PyError, value_error, api_error, ◌>>=◌}
use gpt_pilot.Convo.{Role, Message}
use gpt_pilot.Convo.Adding.{add}

-- What `_make_request` returns, or the class of the exception that it raises with its text and what is
-- read from the response: the wait of a rate limit, the message, the code of a status error.
pub data Answer : Type 0 where
  answered : String → ℕ → ℕ → Answer
  connection_error read_timeout read_error generic_error : String → Answer
  rate_limited : String → Option ℕ → String → Answer
  not_found authentication_error : String → Answer
  status_error : String → String → Answer

pub data LlmError : Type 0 where
  key_expired rate_limit generic_api_error : LlmError

pub data Status : Type 0 where
  success error : Status

pub record LlmRequestLog : Type 0 where
  pub messages : List Message
  pub response : Option String
  pub prompt_tokens : ℕ
  pub completion_tokens : ℕ
  pub status : Status
  pub error : Option String

abbrev pub new_log : LlmRequestLog
new_log = record {
  messages = [];
  response = none;
  prompt_tokens = 0;
  completion_tokens = 0;
  status = Status.success;
  error = none;
}

-- The response: parsed, or the text where there is no parser.
pub data Response (A : Type 0) : Type 0 where
  plain : String → Response A
  parsed : A → Response A

-- The client, with everything around it as a world that it changes.
pub record Client (A : Type 0) : Type 1 where
  pub World : Type 0
  pub request : List Message → World → Answer × World
  pub error_handler : Option (LlmError → String → World → Bool × World)
  pub parser : Option (String → Result A)
  pub max_retries : ℕ

-- `part in s`
unfoldable pub has_text : String → String → Bool
has_text part String.[] = part == ""
has_text part (String.◌∷◌ c s) = starts_with (String.◌∷◌ c s) part || has_text part s

abbrev pub too_large : List String
too_large = "request_too_large" ∷ "context_length_exceeded" ∷ "string_above_max_length" ∷ []

abbrev pub too_large_message : String
too_large_message =
    "We sent too large request to the LLM, resulting in an error. This is usually caused by including framework files in an LLM request. Here's how you can get Pythagora to ignore those extra files: https://bit.ly/faq-token-limit-error"

-- `if request_log.error:`
abbrev pub last_error_msg : Option String → String
last_error_msg none = "Error parsing LLM response"
last_error_msg (some err) =
    if err == ""
    then "Error parsing LLM response"
    else String.◌++◌ "Error connecting to the LLM: " err

module _ {A : Type 0} (client : Client A) where
  open client use {World, request, error_handler, parser, max_retries}

  -- The variables of the loop: the retries that remain, the conversation, the log and the world.
  pub record Loop : Type 0 where
    pub remaining : ℕ
    pub convo : List Message
    pub log : LlmRequestLog
    pub world : World

  -- What one round comes to.
  pub data Round : Type 0 where
    again : Loop → Round
    finished : Result (Response A × LlmRequestLog) → World → Round

  -- `self.error_handler(...)`, where no handler wants no retry.
  unfoldable pub ask : LlmError → String → World → Bool × World
  ask kind message w = elim error_handler [
    | none ↦ (false, w)
    | some handler ↦ handler kind message w
  ]

  unfoldable pub give_up : Loop → Round
  give_up l =
      let message = last_error_msg l.log.error in
      let (should_retry, w) = ask LlmError.generic_api_error message l.world in
      if should_retry
      then again (record l { remaining = max_retries; world = w })
      else finished (raise (api_error message)) w

  -- `request_log.error = ...; request_log.status = ERROR; continue`
  unfoldable pub log_error : String → Loop → Round
  log_error message l =
      again (record l { log = record (l.log) { error = some message; status = Status.error } })

  -- The parser raised a ValueError: the LLM is told and asked again.
  unfoldable pub ask_again : String → String → Loop → Round
  ask_again response message l =
      let reason = String.◌++◌ "Error parsing response: " message in
      let told =
        add Role.assistant response none l.convo
        >>= add Role.user (String.◌++◌ reason ". Please output your response EXACTLY as requested.")
            none in
      elim told [
        | raise e ↦ finished (raise e) l.world
        | ok convo ↦ log_error reason (record l { convo = convo })
      ]

  unfoldable pub parse : String → Loop → Round
  parse response l = elim parser [
    | none ↦ finished (ok (plain response, l.log)) l.world
    | some p ↦ elim (p response) [
      | ok value ↦ finished (ok (parsed value, l.log)) l.world
      | raise (value_error message) ↦ ask_again response message l
      | raise e ↦ finished (raise e) l.world
    ]
  ]

  -- The handlers of the exceptions, and the answer.
  unfoldable pub handle : Answer → Loop → Round
  handle (answered response prompt completion) l = parse response (record l {
    log = record (l.log) {
      response = some response;
      prompt_tokens = l.log.prompt_tokens + prompt;
      completion_tokens = l.log.completion_tokens + completion;
    };
  })
  handle (connection_error err) l = log_error (String.◌++◌ "API connection error: " err) l
  handle (read_timeout err) l = log_error (String.◌++◌ "Read timeout: " err) l
  handle (read_error err) l = log_error (String.◌++◌ "Read error: " err) l
  handle (generic_error err) l =
      log_error (String.◌++◌ "LLM had an error processing our request: " err) l
  handle (rate_limited err none err_msg) l = finished (raise (api_error err_msg)) l.world
  handle (rate_limited err (some zero) err_msg) l = finished (raise (api_error err_msg)) l.world
  handle (rate_limited err (some (suc n)) err_msg) l =
      let (_, w) = ask LlmError.rate_limit "" l.world in
      log_error (String.◌++◌ "Rate limit error: " err) (record l { world = w })
  handle (not_found err_msg) l = finished (raise (api_error err_msg)) l.world
  handle (authentication_error err_msg) l =
      if not (has_text "[BricksLLM]" err_msg)
      then finished (raise (api_error err_msg)) l.world
      else let (should_retry, w) = ask LlmError.key_expired "" l.world in
        if should_retry
        then again (record l { world = w })
        else finished (raise (api_error err_msg)) w
  handle (status_error err err_code) l =
      if contains too_large err_code
      then finished (raise (api_error too_large_message)) l.world
      else log_error (String.◌++◌ "API error: " err) l

  unfoldable pub attempt : Loop → Round
  attempt l =
      let (answer, w) = request l.convo l.world in
      handle answer (record l {
        remaining = l.remaining - 1;
        log = record (l.log) {
          messages = l.convo;
          response = none;
          status = Status.success;
          error = none;
        };
        world = w;
      })

  unfoldable pub round : Loop → Round
  round l = if l.remaining == 0 then give_up l else attempt l

  -- The loop for so many rounds at most; `none` if it has not come to its end by then.
  unfoldable pub call_loop : ℕ → Loop → Option (Result (Response A × LlmRequestLog) × World)
  call_loop zero l = none
  call_loop (suc fuel) l = elim (round l) [
    | finished result w ↦ some (result, w)
    | again l' ↦ call_loop fuel l'
  ]

  unfoldable pub call :
      ℕ → List Message → World → Option (Result (Response A × LlmRequestLog) × World)
  unfolding call_loop
  call fuel convo w =
      call_loop fuel (record { remaining = max_retries; convo = convo; log = new_log; world = w })
