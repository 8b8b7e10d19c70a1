-- ===== src/Convo/Common.antt =====
-- `after` splits a conversation where it leaves the parent.
use gpt_pilot.Prelude.{
  ◌≡◌, refl, ap, true, false, List, [], ◌∷◌, ◌++◌, take, drop, arith, take-append-drop, string_eq,
  option_eq, ◌∙◌,
}
use gpt_pilot.Convo.{Message, same_message, common_length, after, role_eq}

-- The two conversations part here: one of them ends, or the next messages differ.
abbrev pub Parts : List Message → List Message → Type 0
Parts (m ∷ messages) (p ∷ parent) = same_message m p ≡ false
Parts messages parent = Unit

same_message_lem : (m p : Message) → same_message m p ≡ true → m ≡ p
unfolding same_message
same_message_lem m p h = ground arith

take-common_length :
    (messages parent : List Message)
    → take (common_length messages parent) messages ≡ take (common_length messages parent) parent
unfolding common_length
take-common_length [] parent = refl
take-common_length (m ∷ messages) [] = refl
take-common_length (m ∷ messages) (p ∷ parent) =
    ground (arith, take-common_length messages parent, same_message_lem m p)

drop-common_length :
    (messages parent : List Message)
    → Parts (after messages parent) (drop (common_length messages parent) parent)
unfolding after common_length
drop-common_length [] parent = tt
drop-common_length (m ∷ messages) [] = tt
drop-common_length (m ∷ messages) (p ∷ parent) = ground (arith, drop-common_length messages parent)

-- The conversation is what it shares with the parent's start followed by the result of `after`, and
-- there the two part: the result is empty, the parent ends, or their next messages differ.
pub after_lem :
    (messages parent : List Message)
    → (common rest : List Message) × (common ++ after messages parent ≡ messages)
      × (common ++ rest ≡ parent)
      × Parts (after messages parent) rest
unfolding after
after_lem messages parent = (
  take (common_length messages parent) messages,
  drop (common_length messages parent) parent,
  take-append-drop (common_length messages parent) messages,
  ap (λ l. l ++ drop (common_length messages parent) parent) (take-common_length messages parent)
      ∙ take-append-drop (common_length messages parent) parent,
  drop-common_length messages parent,
)
