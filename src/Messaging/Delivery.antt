-- ===== src/Messaging/Delivery.antt =====
-- To whom `publish` delivers, and in which order a chat receives.
use gpt_pilot.Prelude.{
  ℕ, String, ◌≡◌, refl, false, List, [], ◌∷◌, contains, arith, nat_eq, string_eq, if◌then◌else◌,
}
use gpt_pilot.Prelude.Dict.{lookup-insert}
use gpt_pilot.Messaging.{Broker, subscribers, write, put, publish_all, publish, touch}

-- No queue is listed twice.
abbrev pub AllDistinct : List ℕ → Type 0
AllDistinct [] = Unit
AllDistinct (q ∷ qs) = (contains qs q ≡ false) × AllDistinct qs

module _ {M : Type 0} where
  publish_all_lem :
      (maxsize : ℕ) (taken : ℕ → ℕ) (message : M) (qs : List ℕ) (contents : ℕ → List M) (q : ℕ)
      → AllDistinct qs
      → publish_all maxsize taken message qs contents q
        ≡ (if contains qs q then put maxsize (taken q) message (contents q) else contents q)
  unfolding publish_all write
  publish_all_lem maxsize taken message [] contents q distinct = refl
  publish_all_lem maxsize taken message (p ∷ qs) contents q distinct = ground (
    arith,
    publish_all_lem maxsize taken message qs
        (write p (put maxsize (taken p) message (contents p)) contents) q distinct.1,
    distinct.0,
  )

  -- Every queue that subscribes to the topic gets the message once, by `put`, and no other queue
  -- changes; the topics have the same subscribers as before.
  pub publish_lem :
      (taken : ℕ → ℕ) (b : Broker M) (topic : String) (message : M)
      → AllDistinct (subscribers b topic)
      → ((q : ℕ)
          → (publish taken b topic message).contents q ≡ (
              if contains (subscribers b topic) q
              then put b.maxsize (taken q) message (b.contents q)
              else b.contents q))
        × ((other : String)
            → subscribers (publish taken b topic message) other ≡ subscribers b other)
  unfolding publish touch subscribers
  publish_lem taken b topic message distinct = (
    (λ q. publish_all_lem b.maxsize taken message (subscribers b topic) b.contents q distinct),
    λ other. ground (arith, lookup-insert other topic (subscribers b topic) b.queues),
  )
