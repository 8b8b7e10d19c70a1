-- ===== src/IpcClient.antt =====
-- Receiving messages in core/ui/ipc_client.py: `_receive`, `get_debugging_logs` and what `ask_question`
-- makes of an answer. What the connection gives is a list of reads, and the parser is an argument.
pub mod Logs
use gpt_pilot.Prelude.{
  ℕ, zero, suc, String, Bool, true, false, not, ◌||◌, ◌&&◌, Option, none, some, List, [], ◌∷◌, ◌++◌,
  ◌==◌, string_eq, is_empty, if◌then◌else◌,
}
use gpt_pilot.Prelude.Dict.{Dict, lookup, is_some}
use gpt_pilot.Prelude.Strings.{strip}
use gpt_pilot.Result.{Result, ok, raise, api_error}
use gpt_pilot.BugHunter.{UserInput}

abbrev pub debug_logs_max_attempts : ℕ
debug_logs_max_attempts = 5

pub data MessageType : Type 0 where
  exit stream verbose buttons buttons_only response user_input_request info : MessageType
  progress debugging_logs run_command app_link open_file project_folder_name : MessageType
  project_stats hint key_expired input_prefill loading_finished project_description : MessageType
  features_list import_project app_finished feature_finished generate_diff : MessageType
  close_diff file_status bug_hunter_status epics_and_tasks modified_files : MessageType
  important_stream breakdown_stream test_instructions knowledge_base_update stop_app : MessageType

-- The content is a text, a dictionary, here of texts, or none.
pub data Content : Type 0 where
  no_content : Content
  text : String → Content
  object : Dict String → Content

pub record IpcMessage : Type 0 where
  pub type : MessageType
  pub content : Content

-- What `from_bytes` makes of the bytes: ValidationError, or another ValueError.
pub data Payload : Type 0 where
  parsed : IpcMessage → Payload
  not_valid not_json : Payload

-- One read: bytes, or an exception that ends in UIClosedError.
pub data Read : Type 0 where
  chunk : List ℕ → Read
  timed_out lost : Read

pub record IpcClient : Type 0 where
  pub pending_messages : List IpcMessage
  pub reads : List Read

abbrev pub closed : {A : Type 0} → Result A
closed = raise (api_error "UIClosedError")

-- The loop of `_receive`, with the bytes so far; after the reads in the list nothing comes in time.
unfoldable pub receive_from :
    (List ℕ → Payload) → List ℕ → List Read → Result IpcMessage × List Read
receive_from from_bytes bytes [] = (closed, [])
receive_from from_bytes bytes (Read.timed_out ∷ reads) = (closed, reads)
receive_from from_bytes bytes (Read.lost ∷ reads) = (closed, reads)
receive_from from_bytes bytes (chunk [] ∷ reads) = (closed, reads)
receive_from from_bytes bytes (chunk (b ∷ bs) ∷ reads) =
    let afresh = receive_from from_bytes [] reads in
    let more = receive_from from_bytes (bytes ++ b ∷ bs) reads in
    elim (from_bytes (bytes ++ b ∷ bs)) [
      | parsed m ↦ (ok m, reads)
      | not_valid ↦ afresh
      | not_json ↦ more
    ]

abbrev pub with_reads : Result IpcMessage × List Read → Result IpcMessage × IpcClient
with_reads (result, reads) = (result, record { pending_messages = []; reads = reads })

abbrev pub receive_pending :
    (List ℕ → Payload) → List IpcMessage → List Read → Result IpcMessage × IpcClient
receive_pending from_bytes [] reads = with_reads (receive_from from_bytes [] reads)
receive_pending from_bytes (m ∷ ms) reads = (ok m, record { pending_messages = ms; reads = reads })

unfoldable pub receive_message : (List ℕ → Payload) → IpcClient → Result IpcMessage × IpcClient
receive_message from_bytes c = receive_pending from_bytes c.pending_messages c.reads

abbrev pub is_debugging_logs : MessageType → Bool
is_debugging_logs MessageType.debugging_logs = true
is_debugging_logs _ = false

abbrev pub entry_or_blank : Option String → String
entry_or_blank none = ""
entry_or_blank (some value) = value

-- `content.get(name) or ""` of a dictionary, and of `{}` else.
abbrev pub entry : String → Content → String
entry name (object d) = entry_or_blank (lookup name d)
entry name _ = ""

-- How one round of the loop ends: with logs, or with a message that is put back.
pub data LogsRound : Type 0 where
  given : String × String → IpcClient → LogsRound
  again : IpcClient → LogsRound

abbrev pub logs_round : Result IpcMessage × IpcClient → LogsRound
logs_round (raise error, c) = given ("", "") c
logs_round (ok m, c) =
    if is_debugging_logs m.type
    then given (entry "backend" m.content, entry "frontend" m.content) c
    else again (record c { pending_messages = c.pending_messages ++ m ∷ [] })

unfoldable pub logs_within : (List ℕ → Payload) → ℕ → IpcClient → (String × String) × IpcClient
logs_within from_bytes zero c = (("", ""), c)
logs_within from_bytes (suc attempts) c = elim (logs_round (receive_message from_bytes c)) [
  | given logs c' ↦ (logs, c')
  | again c' ↦ logs_within from_bytes attempts c'
]

unfoldable pub get_debugging_logs : (List ℕ → Payload) → IpcClient → (String × String) × IpcClient
get_debugging_logs from_bytes = logs_within from_bytes debug_logs_max_attempts

-- `value2key.get(value)`: of buttons with the same text the dictionary has the last.
abbrev pub key_of : String → Dict String → Option String
key_of value [] = none
key_of value ((key, value') ∷ choices) =
    let later = key_of value choices in
    if is_some later then later else if value' == value then some key else none

abbrev pub or_default : String → Option String → String
or_default answer none = answer
or_default answer (some default) = if answer == "" then default else answer

abbrev pub pressed : String → UserInput
pressed button = record { text = none; button = some button; cancelled = false }

-- An answer that is no button.
abbrev pub written : String → Bool → UserInput
written answer allow_empty =
    if not (answer == "") || allow_empty
    then record { text = some answer; button = none; cancelled = false }
    else record { text = none; button = none; cancelled = true }

-- What `ask_question` returns for the content of the response.
unfoldable pub answer_of : Dict String → Option String → Bool → String → UserInput
answer_of choices default allow_empty content =
    let answer = or_default (strip content) default in
    if is_some (lookup answer choices)
    then pressed answer
    else elim (key_of answer choices) [ some key ↦ pressed key | none ↦ written answer allow_empty ]
