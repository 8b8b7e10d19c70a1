-- ===== src/Tests/Connections.antt =====
-- A server whose messages are single bytes: 1 is a response, and 2 the debugging logs.
use gpt_pilot.Prelude.{
  ℕ, ◌≡◌, refl, none, some, false, List, [], ◌∷◌, string_eq, nat_eq, if◌then◌else◌, ◌==◌,
}
use gpt_pilot.IpcClient.{
  IpcMessage, MessageType, Content, Payload, Read, receive_from, get_debugging_logs, answer_of,
  logs_within, receive_message,
}
use gpt_pilot.IpcClient.Logs.{get_debugging_logs-other, holding}
use gpt_pilot.Prelude.Strings.{strip}
use gpt_pilot.Prelude.Dict.{lookup}

abbrev answer : IpcMessage
answer = record { type = MessageType.response; content = Content.text "yes" }

abbrev logs : IpcMessage
logs = record {
  type = MessageType.debugging_logs;
  content = Content.object (("backend", "Error") ∷ []);
}

abbrev message_of : ℕ → Payload
message_of n =
    if n == 1
    then Payload.parsed answer
    else if n == 2
    then Payload.parsed logs
    else Payload.not_json

abbrev from_bytes : List ℕ → Payload
from_bytes [] = Payload.not_json
from_bytes (n ∷ []) = message_of n
from_bytes (n ∷ m ∷ ms) = Payload.not_json

abbrev answer_then_logs : List Read
answer_then_logs = Read.chunk (1 ∷ []) ∷ Read.chunk (2 ∷ []) ∷ []

get_debugging_logs-other_example :
    get_debugging_logs from_bytes (record { pending_messages = []; reads = answer_then_logs })
    ≡ (("", ""), holding answer (Read.chunk (2 ∷ []) ∷ []))
unfolding receive_from nat_eq
get_debugging_logs-other_example =
    get_debugging_logs-other from_bytes answer answer_then_logs (Read.chunk (2 ∷ []) ∷ []) refl refl

-- When the logs come first they are returned.
logs_first :
    (get_debugging_logs from_bytes
      (record { pending_messages = []; reads = Read.chunk (2 ∷ []) ∷ [] })).0
    ≡ ("Error", "")
unfolding get_debugging_logs logs_within receive_message receive_from lookup string_eq nat_eq
logs_first = refl

-- The text of a button stands for the button.
text_of_button :
    answer_of (("yes", "Yes, it is fixed") ∷ []) none false " Yes, it is fixed "
    ≡ record { text = none; button = some "yes"; cancelled = false }
unfolding answer_of strip lookup string_eq nat_eq
text_of_button = refl
