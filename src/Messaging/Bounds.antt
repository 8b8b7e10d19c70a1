-- ===== src/Messaging/Bounds.antt =====
-- What holds of the broker whatever is called on it: the queues stay within the bound, and no queue
-- is listed twice under a topic.
use gpt_pilot.Prelude.{
  tail, subst, sym, ℕ, zero, suc, ◌≤◌, ◌<◌, ◌-◌, String, ◌≡◌, ap, true, not, ◌&&◌, some, List, [],
  ◌∷◌, ◌++◌, length, length-append, contains, contains-append, erase_first, drop, arith, ◌==◌,
  nat_eq, string_eq, if◌then◌else◌,
}
use gpt_pilot.Prelude.Dict.{lookup, lookup-insert, lookup-erase}
use gpt_pilot.Messaging.{
  Broker, new_broker, subscribers, write, is_full, put, publish, subscribe, unsubscribe, touch, get,
}
use gpt_pilot.Messaging.Delivery.{AllDistinct, publish_lem}
use gpt_pilot.Messaging.Distinct.{
  AllDistinct-append, contains-erase_first, AllDistinct-erase_first, erase_first-absent,
  nil_of_is_empty,
}

module _ {M : Type 0} where
  length-drop : (n : ℕ) (l : List M) → length (drop n l) ≡ length l - n
  length-drop zero l = omega arith
  length-drop (suc n) [] = omega arith
  length-drop (suc n) (m ∷ l) = omega (arith, length-drop n l)

  -- A bounded queue does not outgrow its bound by a message that is put into it.
  length-put :
      (maxsize taken : ℕ) (message : M) (l : List M)
      → 0 < maxsize
      → length l ≤ maxsize
      → length (put maxsize taken message l) ≤ maxsize
  unfolding put is_full
  length-put maxsize taken message l positive within = ground (
    arith,
    length-append l (message ∷ []),
    length-append (drop taken l) (message ∷ []),
    length-drop taken l,
  )

  subscribers-unsubscribe :
      (b : Broker M) (topic : String) (queue : ℕ) (other : String)
      → subscribers (unsubscribe b topic queue) other ≡ (
          if other == topic
          then erase_first (λ r. r == queue) (subscribers b topic)
          else subscribers b other)
  unfolding unsubscribe subscribers touch
  subscribers-unsubscribe b topic queue other =
      let qs = subscribers b topic in
      let rest = erase_first (λ r. r == queue) qs in
      ground (
        arith,
        lookup-insert other topic qs b.queues,
        lookup-insert other topic rest b.queues,
        lookup-erase other topic b.queues,
        erase_first-absent qs queue,
        nil_of_is_empty rest,
      )

  -- A queue that unsubscribes from a topic is not among its subscribers any more; all other
  -- subscriptions stay.
  pub unsubscribe_lem :
      (b : Broker M) (topic : String) (queue : ℕ) (other : String) (p : ℕ)
      → AllDistinct (subscribers b topic)
      → contains (subscribers (unsubscribe b topic queue) other) p
        ≡ (contains (subscribers b other) p && not (other == topic && p == queue))
  unsubscribe_lem b topic queue other p distinct = ground (
    arith,
    subscribers-unsubscribe b topic queue other,
    contains-erase_first (subscribers b topic) queue p distinct,
  )

  -- The queues of a bounded broker are within the bound, the subscribers of a topic are distinct, and
  -- they are queues that were made.
  pub record WellFormed (b : Broker M) : Type 0 where
    pub bounded : (q : ℕ) → 0 < b.maxsize → length (b.contents q) ≤ b.maxsize
    pub distinct : (topic : String) → AllDistinct (subscribers b topic)
    pub known : (topic : String) (q : ℕ) → contains (subscribers b topic) q ≡ true → q < b.made

  -- The brokers that calls in any order can lead to.
  pub data Reachable : Broker M → Type 0 where
    new : (maxsize : ℕ) → Reachable (new_broker maxsize)
    published :
        {b : Broker M}
        → Reachable b
        → (taken : ℕ → ℕ) (topic : String) (message : M) → Reachable (publish taken b topic message)
    subscribed : {b : Broker M} → Reachable b → (topic : String) → Reachable (subscribe b topic).1
    unsubscribed :
        {b : Broker M} → Reachable b → (topic : String) (q : ℕ) → Reachable (unsubscribe b topic q)
    got :
        {b b' : Broker M} {message : M}
        → Reachable b
        → (q : ℕ) → get b q ≡ some (message, b')
        → Reachable b'

  WellFormed-publish :
      (taken : ℕ → ℕ) (b : Broker M) (topic : String) (message : M)
      → WellFormed b
      → WellFormed (publish taken b topic message)
  unfolding publish
  WellFormed-publish taken b topic message wf =
      let (filled, same) = publish_lem taken b topic message (wf.distinct topic) in
      record {
        bounded = λ q positive. ground (
          arith,
          filled q,
          wf.bounded q positive,
          length-put b.maxsize (taken q) message (b.contents q) positive,
        );
        distinct = λ other. subst AllDistinct (sym (same other)) (wf.distinct other);
        known = λ other q h. ground (arith, same other, wf.known other q);
      }

  pub subscribers-subscribe :
      (b : Broker M) (topic other : String)
      → subscribers (subscribe b topic).1 other
        ≡ (if other == topic then subscribers b topic ++ b.made ∷ [] else subscribers b other)
  unfolding subscribe subscribers
  subscribers-subscribe b topic other =
      ground (arith, lookup-insert other topic (subscribers b topic ++ b.made ∷ []) b.queues)

  pub WellFormed-subscribe :
      (b : Broker M) (topic : String) → WellFormed b → WellFormed (subscribe b topic).1
  unfolding subscribe write
  WellFormed-subscribe b topic wf =
      let qs = subscribers b topic in
      record {
        bounded = λ q positive. ground (arith, wf.bounded q positive);
        distinct = λ other. ground (
          arith,
          subscribers-subscribe b topic other,
          wf.distinct other,
          wf.known topic b.made,
          AllDistinct-append qs b.made (wf.distinct topic),
        );
        known = λ other q h. ground (
          arith,
          h,
          subscribers-subscribe b topic other,
          wf.known topic q,
          wf.known other q,
          contains-append qs (b.made ∷ []) q,
        );
      }

  frame-unsubscribe :
      (b : Broker M) (topic : String) (queue : ℕ)
      → ((unsubscribe b topic queue).maxsize ≡ b.maxsize)
        × ((unsubscribe b topic queue).made ≡ b.made)
        × ((unsubscribe b topic queue).contents ≡ b.contents)
  unfolding unsubscribe touch
  frame-unsubscribe b topic queue = ground arith

  WellFormed-unsubscribe :
      (b : Broker M) (topic : String) (queue : ℕ)
      → WellFormed b
      → WellFormed (unsubscribe b topic queue)
  WellFormed-unsubscribe b topic queue wf =
      let (maxsize, made, contents) = frame-unsubscribe b topic queue in
      record {
        bounded = λ q positive.
            let h = wf.bounded q (subst (λ n. 0 < n) maxsize positive) in
            ground (arith, h, maxsize, ap (λ (c : ℕ → List M). c q) contents);
        distinct = λ other. ground (
          arith,
          subscribers-unsubscribe b topic queue other,
          wf.distinct other,
          AllDistinct-erase_first (subscribers b topic) queue (wf.distinct topic),
        );
        known = λ other q h. ground (
          arith,
          h,
          made,
          wf.known other q,
          unsubscribe_lem b topic queue other q (wf.distinct topic),
        );
      }

  get_lem :
      (b : Broker M) (queue : ℕ) {message : M} {b' : Broker M}
      → get b queue ≡ some (message, b')
      → (messages : List M) × (b.contents queue ≡ message ∷ messages)
        × (b' ≡ record b { contents = write queue messages b.contents })
  unfolding get
  get_lem b queue run = (tail (b.contents queue), ground (arith, run), ground (arith, run))

  WellFormed-get :
      (b : Broker M) (queue : ℕ) {message : M} {b' : Broker M}
      → get b queue ≡ some (message, b')
      → WellFormed b
      → WellFormed b'
  unfolding write subscribers
  WellFormed-get b queue run wf =
      let (messages, front, rest) = get_lem b queue run in
      subst WellFormed (sym rest) (record {
        bounded =
            λ q positive. ground (arith, front, wf.bounded q positive, wf.bounded queue positive);
        distinct = wf.distinct;
        known = wf.known;
      })

  -- Every broker that calls in any order can lead to is well formed.
  pub Reachable-WellFormed : {b : Broker M} → Reachable b → WellFormed b
  unfolding new_broker subscribers lookup
  Reachable-WellFormed (new maxsize) = record {
    bounded = λ q positive. omega arith;
    distinct = λ topic. tt;
    known = λ topic q h. absurd (ground (arith, h));
  }
  Reachable-WellFormed (published {b = b} r taken topic message) =
      WellFormed-publish taken b topic message (Reachable-WellFormed r)
  Reachable-WellFormed (subscribed {b = b} r topic) =
      WellFormed-subscribe b topic (Reachable-WellFormed r)
  Reachable-WellFormed (unsubscribed {b = b} r topic q) =
      WellFormed-unsubscribe b topic q (Reachable-WellFormed r)
  Reachable-WellFormed (got {b = b} r q run) = WellFormed-get b q run (Reachable-WellFormed r)
