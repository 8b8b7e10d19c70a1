-- ===== src/IpcClient/Logs.antt =====
-- What `get_debugging_logs` of core/ui/ipc_client.py does with another message.
use gpt_pilot.Prelude.{ℕ, zero, suc, ◌≡◌, refl, false, List, [], ◌∷◌, arith}
use gpt_pilot.Result.{ok}
use gpt_pilot.IpcClient.{
  IpcClient, IpcMessage, Payload, Read, receive_message, receive_from, logs_within,
  get_debugging_logs, is_debugging_logs,
}

-- The client with one message put back.
abbrev pub holding : IpcMessage → List Read → IpcClient
holding m reads = record { pending_messages = m ∷ []; reads = reads }

-- A message that was put back is received again in every round.
logs_within-holding :
    (from_bytes : List ℕ → Payload) (attempts : ℕ) (m : IpcMessage) (reads : List Read)
    → is_debugging_logs m.type ≡ false
    → logs_within from_bytes attempts (holding m reads) ≡ (("", ""), holding m reads)
unfolding logs_within receive_message
logs_within-holding from_bytes zero m reads other = refl
logs_within-holding from_bytes (suc attempts) m reads other =
    ground (arith, other, logs_within-holding from_bytes attempts m reads other)

-- If the first message that arrives has no debugging logs, then no logs are returned, whatever the
-- server sends after it: the message is put back and received in each of the attempts that are left,
-- and no further read is made.
pub get_debugging_logs-other :
    (from_bytes : List ℕ → Payload) (m : IpcMessage) (reads rest : List Read)
    → receive_from from_bytes [] reads ≡ (ok m, rest)
    → is_debugging_logs m.type ≡ false
    → get_debugging_logs from_bytes (record { pending_messages = []; reads = reads })
      ≡ (("", ""), holding m rest)
unfolding get_debugging_logs logs_within receive_message
get_debugging_logs-other from_bytes m reads rest first other =
    ground (arith, first, other, logs_within-holding from_bytes 4 m rest other)
