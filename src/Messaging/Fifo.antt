-- ===== src/Messaging/Fifo.antt =====
-- A chat receives what is published to it, in order.
use gpt_pilot.Prelude.{
  contains-append, ◌∙◌, sym, subst, ℕ, zero, suc, ◌≤◌, ◌+◌, String, ◌≡◌, refl, ap, true, ◌⊎◌, none,
  some, List, [], ◌∷◌, ◌++◌, length, length-append, contains, take, arith, nat_eq, string_eq,
  ==_refl,
}
use gpt_pilot.Messaging.{
  Broker, Chat, subscribers, write, is_full, put, publish, get, queue_length, subscribe, new_chat,
  chat_publish, receive, get_nowait,
}
use gpt_pilot.Messaging.Delivery.{AllDistinct, publish_lem}
use gpt_pilot.Messaging.Bounds.{WellFormed, WellFormed-subscribe, subscribers-subscribe}

module _ {M : Type 0} where
  append_nil : (l : List M) → l ++ [] ≡ l
  append_nil [] = refl
  append_nil (m ∷ l) = ap (λ r. m ∷ r) (append_nil l)

  snoc_append : (l : List M) (m : M) (r : List M) → (l ++ m ∷ []) ++ r ≡ l ++ m ∷ r
  snoc_append [] m r = refl
  snoc_append (n ∷ l) m r = ap (λ k. n ∷ k) (snoc_append l m r)

  take-length : (l : List M) → take (length l) l ≡ l
  take-length [] = refl
  take-length (m ∷ l) = ap (λ k. m ∷ k) (take-length l)

  unfoldable pub publish_many : (ℕ → ℕ) → Chat → Broker M → List M → Broker M
  publish_many taken chat b [] = b
  publish_many taken chat b (message ∷ messages) =
      publish_many taken chat (chat_publish taken chat b message) messages

  -- What so many calls of `get_nowait` return, up to the first `None`.
  unfoldable pub received : Chat → Broker M → ℕ → List M
  received chat b zero = []
  received chat b (suc n) = elim (get_nowait chat b) [
    | none ↦ []
    | some (none, b') ↦ []
    | some (some message, b') ↦ message ∷ received chat b' n
  ]

  get_nowait-nil :
      (chat : Chat) (b : Broker M) → b.contents chat.queue ≡ [] → get_nowait chat b ≡ some (none, b)
  unfolding get_nowait queue_length
  get_nowait-nil chat b empty = ground (arith, empty)

  get_nowait-cons :
      (chat : Chat) (b : Broker M) (message : M) (messages : List M)
      → b.contents chat.queue ≡ message ∷ messages
      → get_nowait chat b
        ≡ some (some message, record b { contents = write chat.queue messages b.contents })
  unfolding get_nowait queue_length receive get
  get_nowait-cons chat b message messages full = ground (arith, full)

  received_lem :
      (chat : Chat) (b : Broker M) (n : ℕ) (messages : List M)
      → b.contents chat.queue ≡ messages
      → received chat b n ≡ take n messages
  unfolding received write
  received_lem chat b zero messages holds = refl
  received_lem chat b (suc n) [] holds = rw (received, get_nowait-nil chat b holds) refl
  received_lem chat b (suc n) (message ∷ messages) holds =
      let b' = record b { contents = write chat.queue messages b.contents } in
      rw (received, get_nowait-cons chat b message messages holds)
        (ap (λ l. message ∷ l)
          (received_lem chat b' n messages (ground (arith, ==_refl chat.queue))))

  publish_roomy :
      (taken : ℕ → ℕ) (chat : Chat) (b : Broker M) (message : M)
      → ((topic : String) → AllDistinct (subscribers b topic))
      → contains (subscribers b chat.topic) chat.queue ≡ true
      → (b.maxsize ≡ 0) ⊎ (suc (length (b.contents chat.queue)) ≤ b.maxsize)
      → (chat_publish taken chat b message).contents chat.queue
        ≡ b.contents chat.queue ++ message ∷ []
  unfolding chat_publish put is_full
  publish_roomy taken chat b message distinct subscribed room = ground (
    arith,
    subscribed,
    (publish_lem taken b chat.topic message (distinct chat.topic)).0 chat.queue,
    room,
  )

  -- The topics and the bound stay while messages are published, and with room for all of them the
  -- queue of the chat has them in order behind those that it had.
  contents-publish_many :
      (taken : ℕ → ℕ) (chat : Chat) (b : Broker M) (messages : List M)
      → ((topic : String) → AllDistinct (subscribers b topic))
      → contains (subscribers b chat.topic) chat.queue ≡ true
      → (b.maxsize ≡ 0) ⊎ (length (b.contents chat.queue) + length messages ≤ b.maxsize)
      → (publish_many taken chat b messages).contents chat.queue ≡ b.contents chat.queue ++ messages
  unfolding publish_many chat_publish
  contents-publish_many taken chat b [] distinct subscribed room =
      sym (append_nil (b.contents chat.queue))
  contents-publish_many taken chat b (message ∷ messages) distinct subscribed room =
      let b' = chat_publish taken chat b message in
      let (_, same) = publish_lem taken b chat.topic message (distinct chat.topic) in
      let size : b'.maxsize ≡ b.maxsize = unfold publish in refl in
      let put_last =
        publish_roomy taken chat b message distinct subscribed (ground (arith, room)) in
      contents-publish_many taken chat b' messages
        (λ topic. subst AllDistinct (sym (same topic)) (distinct topic))
        (ground (arith, subscribed, same chat.topic))
        (ground (
          arith,
          room,
          size,
          ap length put_last,
          length-append (b.contents chat.queue) (message ∷ []),
        ))
      ∙ ap (λ l. l ++ messages) put_last
      ∙ snoc_append (b.contents chat.queue) message messages

  contents-new_chat :
      (b : Broker M) (topic : String)
      → (new_chat b topic).1.contents (new_chat b topic).0.queue ≡ []
  unfolding new_chat subscribe write
  contents-new_chat b topic = ground (arith, ==_refl b.made)

  -- A new chat on a broker whose topics list no queue twice receives the messages that are then
  -- published to it, in order and all of them, if they fit into its queue: none is dropped.
  pub received-publish_many :
      (taken : ℕ → ℕ) (b : Broker M) (topic : String) (messages : List M)
      → WellFormed b
      → (b.maxsize ≡ 0) ⊎ (length messages ≤ b.maxsize)
      → received
          (new_chat b topic).0
          (publish_many taken (new_chat b topic).0 (new_chat b topic).1 messages)
          (length messages)
        ≡ messages
  unfolding new_chat
  received-publish_many taken b topic messages wf room =
      let chat = (new_chat b topic).0 in
      let b' = (new_chat b topic).1 in
      let wf' = WellFormed-subscribe b topic wf in
      let empty = contents-new_chat b topic in
      received_lem chat (publish_many taken chat b' messages) (length messages) messages (
        contents-publish_many taken chat b' messages wf'.distinct
          (ground (
            arith,
            subscribers-subscribe b topic topic,
            ==_refl topic,
            ==_refl b.made,
            contains-append (subscribers b topic) (b.made ∷ []) b.made,
          ))
          (ground (arith, room, ap length empty))
        ∙ ap (λ l. l ++ messages) empty)
      ∙ take-length messages
