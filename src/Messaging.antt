-- ===== src/Messaging.antt =====
-- class MessageBroker of core/messaging/message_broker.py and class Chat of core/messaging/chat.py.
-- A queue is an object that the broker and its subscriber share, so the topics hold references, and
-- the contents of the queues are a store.
pub mod Delivery
pub mod Distinct
pub mod Bounds
pub mod Fifo
use gpt_pilot.Prelude.{
  ℕ, zero, ◌+◌, String, Bool, true, false, not, ◌&&◌, Option, none, some, List, [], ◌∷◌, ◌++◌, ◌==◌,
  nat_eq, string_eq, length, contains, erase_first, drop, is_empty, leb, if◌then◌else◌,
}
use gpt_pilot.Prelude.Dict.{Dict, lookup, insert, erase}

pub record Broker (M : Type 0) : Type 0 where
  pub maxsize : ℕ
  pub queues : Dict (List ℕ)
  pub made : ℕ
  pub contents : ℕ → List M

abbrev pub or_nil : Option (List ℕ) → List ℕ
or_nil none = []
or_nil (some l) = l

module _ {M : Type 0} where
  unfoldable pub new_broker : ℕ → Broker M
  new_broker maxsize = record { maxsize = maxsize; queues = []; made = 0; contents = λ q. [] }

  -- `self._queues[topic]`, which makes an empty list for a new topic.
  unfoldable pub subscribers : Broker M → String → List ℕ
  subscribers b topic = or_nil (lookup topic b.queues)

  unfoldable pub touch : Broker M → String → Broker M
  unfolding subscribers
  touch b topic = record b { queues = insert topic (subscribers b topic) b.queues }

  unfoldable pub write : ℕ → List M → (ℕ → List M) → ℕ → List M
  write q messages contents p = if p == q then messages else contents p

  -- `asyncio.Queue.full`: a maxsize of 0 is no bound.
  unfoldable pub is_full : ℕ → List M → Bool
  is_full maxsize messages = not (maxsize == 0) && leb maxsize (length messages)

  -- `wait_for(queue.put(message), timeout)`: a full queue takes the message only if its consumer takes
  -- some messages before the time is over, and else the message is dropped.
  unfoldable pub put : ℕ → ℕ → M → List M → List M
  unfolding is_full
  put maxsize taken message messages =
      if not (is_full maxsize messages)
      then messages ++ message ∷ []
      else if taken == 0
      then messages
      else drop taken messages ++ message ∷ []

  unfoldable pub publish_all : ℕ → (ℕ → ℕ) → M → List ℕ → (ℕ → List M) → ℕ → List M
  publish_all maxsize taken message [] contents = contents
  publish_all maxsize taken message (q ∷ qs) contents =
      publish_all maxsize taken message qs
        (write q (put maxsize (taken q) message (contents q)) contents)

  -- `taken` says how many messages the consumer of a queue takes while the publisher waits for it.
  unfoldable pub publish : (ℕ → ℕ) → Broker M → String → M → Broker M
  unfolding publish_all touch subscribers
  publish taken b topic message = record (touch b topic) {
    contents = publish_all b.maxsize taken message (subscribers b topic) b.contents;
  }

  unfoldable pub subscribe : Broker M → String → ℕ × Broker M
  unfolding subscribers write
  subscribe b topic = (
    b.made,
    record b {
      queues = insert topic (subscribers b topic ++ b.made ∷ []) b.queues;
      made = b.made + 1;
      contents = write b.made [] b.contents;
    },
  )

  -- A queue that does not subscribe to the topic raises ValueError, which is caught.
  unfoldable pub unsubscribe : Broker M → String → ℕ → Broker M
  unfolding subscribers touch
  unsubscribe b topic queue =
      if not (contains (subscribers b topic) queue)
      then touch b topic
      else let rest = erase_first (λ q. q == queue) (subscribers b topic) in
        if is_empty rest
        then record b { queues = erase topic b.queues }
        else record b { queues = insert topic rest b.queues }

  -- `none` while `await queue.get()` waits for a message.
  unfoldable pub get : Broker M → ℕ → Option (M × Broker M)
  unfolding write
  get b queue = elim (b.contents queue) [
    | [] ↦ none
    | message ∷ messages ↦ some (message, record b { contents = write queue messages b.contents })
  ]

  unfoldable pub queue_length : Broker M → ℕ → ℕ
  queue_length b queue = length (b.contents queue)

-- The broker of a chat is a shared object, which its methods take and return.
pub record Chat : Type 0 where
  pub topic : String
  pub queue : ℕ

module _ {M : Type 0} where
  unfoldable pub new_chat : Broker M → String → Chat × Broker M
  unfolding subscribe
  new_chat b topic =
      let (queue, b') = subscribe b topic in (record { topic = topic; queue = queue }, b')

  unfoldable pub chat_publish : (ℕ → ℕ) → Chat → Broker M → M → Broker M
  unfolding publish
  chat_publish taken chat b message = publish taken b chat.topic message

  unfoldable pub receive : Chat → Broker M → Option (M × Broker M)
  receive chat b = get b chat.queue

  -- The next message, or `None`, and the broker; `none` would be a receive that waits.
  unfoldable pub get_nowait : Chat → Broker M → Option (Option M × Broker M)
  unfolding receive queue_length
  get_nowait chat b =
      if queue_length b chat.queue == 0
      then some (none, b)
      else elim (receive chat b) [ none ↦ none | some (message, b') ↦ some (some message, b') ]
