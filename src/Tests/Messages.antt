-- ===== src/Tests/Messages.antt =====
-- The message broker, chats and conversations on concrete messages.
use gpt_pilot.Prelude.{
  ℕ, String, ◌≡◌, refl, false, none, some, List, [], ◌∷◌, ◌++◌, length, contains, nat_eq, string_eq,
  inr, arith, if◌then◌else◌, ◌≤◌, ◌⊎◌,
}
use gpt_pilot.Messaging.{
  Broker, new_broker, subscribe, subscribers, publish, put, unsubscribe, new_chat, chat_publish,
}
use gpt_pilot.Messaging.Delivery.{publish_lem}
use gpt_pilot.Messaging.Bounds.{Reachable, WellFormed, unsubscribe_lem, Reachable-WellFormed}
use gpt_pilot.Messaging.Fifo.{publish_many, received, received-publish_many}
use gpt_pilot.Convo.{Message, Role, role_eq, after, token_length, trim_to_tokens, Role-discrete}
use gpt_pilot.Convo.Common.{Parts, after_lem}
use gpt_pilot.Convo.Trim.{
  IsTrimmed, trim_to_tokens_lem, trim_to_tokens-IsTrimmed, trim_to_tokens_within,
}
use gpt_pilot.Prelude.Dict.{lookup, insert}

-- Two queues on a topic of a broker with room for two messages in each.
abbrev two_queues : Broker String
two_queues = (subscribe (subscribe (new_broker 2) "chat").1 "chat").1

abbrev nothing_taken : ℕ → ℕ
nothing_taken q = 0

two_subscribers : subscribers two_queues "chat" ≡ 0 ∷ 1 ∷ []
unfolding subscribers subscribe new_broker lookup insert string_eq
two_subscribers = refl

-- The third message is dropped, the consumers being slow.
drops_third :
    (publish_many nothing_taken
        (record { topic = "chat"; queue = 0 })
        two_queues
        ("a" ∷ "b" ∷ "c" ∷ [])).contents
      1
    ≡ "a" ∷ "b" ∷ []
unfolding publish_many chat_publish lookup insert subscribe new_broker string_eq nat_eq put
drops_third = refl

two_queues-Reachable : Reachable two_queues
two_queues-Reachable = Reachable.subscribed (Reachable.subscribed (Reachable.new 2) "chat") "chat"

Reachable-WellFormed_example : WellFormed two_queues
Reachable-WellFormed_example = Reachable-WellFormed two_queues-Reachable

publish_lem_run :
    ((q : ℕ)
      → (publish nothing_taken two_queues "chat" "a").contents q ≡ (
          if contains (subscribers two_queues "chat") q
          then put 2 0 "a" (two_queues.contents q)
          else two_queues.contents q))
    × ((other : String)
        → subscribers (publish nothing_taken two_queues "chat" "a") other
          ≡ subscribers two_queues other)
unfolding subscribe new_broker
publish_lem_run =
    publish_lem nothing_taken two_queues "chat" "a"
      ((Reachable-WellFormed two_queues-Reachable).distinct "chat")

unsubscribes : contains (subscribers (unsubscribe two_queues "chat" 0) "chat") 0 ≡ false
unfolding subscribers lookup subscribe insert new_broker string_eq nat_eq
unsubscribes =
    unsubscribe_lem two_queues "chat" 0 "chat" 0
      ((Reachable-WellFormed two_queues-Reachable).distinct "chat")

received-publish_many_example :
    received
      (new_chat two_queues "chat").0
      (publish_many nothing_taken
        (new_chat two_queues "chat").0
        (new_chat two_queues "chat").1
        ("a" ∷ "b" ∷ []))
      2
    ≡ "a" ∷ "b" ∷ []
unfolding subscribe new_broker
received-publish_many_example =
    received-publish_many nothing_taken two_queues "chat" ("a" ∷ "b" ∷ [])
      (Reachable-WellFormed two_queues-Reachable) (inr (omega arith))

abbrev said : Role → String → Message
said role content = record { role = role; content = content; name = none }

abbrev talk : List Message
talk = said Role.system "rules" ∷ said Role.user "a" ∷ said Role.assistant "b" ∷ []

abbrev parent_talk : List Message
parent_talk = said Role.system "rules" ∷ said Role.user "c" ∷ []

after_lem_run :
    (common rest : List Message) × (common ++ after talk parent_talk ≡ talk)
    × (common ++ rest ≡ parent_talk)
    × Parts (after talk parent_talk) rest
after_lem_run = after_lem talk parent_talk

abbrev one_token : String → ℕ
one_token s = 1

trims :
    trim_to_tokens one_token 4 8 talk
    ≡ some (said Role.system "rules" ∷ said Role.assistant "b" ∷ [])
unfolding trim_to_tokens role_eq Role-discrete
trims = refl

trim_to_tokens_lem_example :
    (kept : List Message) × (trim_to_tokens one_token 4 8 talk ≡ some kept)
    × ((token_length one_token kept ≤ 8) ⊎ (length kept ≤ 1))
trim_to_tokens_lem_example = trim_to_tokens_lem one_token 4 8 talk (omega arith)

trim_to_tokens-IsTrimmed_run :
    IsTrimmed talk (said Role.system "rules" ∷ said Role.assistant "b" ∷ [])
unfolding role_eq Role-discrete
trim_to_tokens-IsTrimmed_run =
    trim_to_tokens-IsTrimmed one_token 4 8 talk _ (omega arith) refl trims

leaves_short_talk : trim_to_tokens one_token 4 12 talk ≡ some talk
unfolding token_length
leaves_short_talk = trim_to_tokens_within one_token 4 12 talk (omega arith) (omega arith)
