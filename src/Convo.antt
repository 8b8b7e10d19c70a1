-- ===== src/Convo.antt =====
-- class Convo of core/llm/convo.py: the messages of a conversation, `after` and `trim_to_tokens`. The
-- tokenizer of tiktoken is a parameter. `deepcopy` makes an equal message.
pub mod Trim
pub mod Common
pub mod Adding
use gpt_pilot.Prelude.{
  ℕ, zero, suc, ◌+◌, String, Bool, true, false, ◌&&◌, Option, none, some, List, [], ◌∷◌, ◌==◌,
  string_eq, option_eq, head?, length, ltb, if◌then◌else◌, Eq, drop,
}

-- A role of the list ROLES.
pub data Role : Type 0 where
  system user assistant function : Role

unfoldable pub Role-discrete : Discrete Role
Role-discrete = hlevel

instance unfoldable pub role_eq : Eq Role
role_eq = record { dec = Role-discrete }

pub record Message : Type 0 where
  pub role : Role
  pub content : String
  pub name : Option String

-- Equality of the dicts of two messages.
unfoldable pub same_message : Message → Message → Bool
same_message m n = m.role == n.role && m.content == n.content && m.name == n.name

abbrev pub starts_with_system : List Message → Bool
starts_with_system [] = false
starts_with_system (m ∷ messages) = m.role == Role.system

-- `del self.messages[del_index]`
unfoldable pub delete_first : List Message → List Message
delete_first [] = []
delete_first (m ∷ []) = []
delete_first (m ∷ n ∷ messages) = if m.role == Role.system then m ∷ messages else n ∷ messages

-- How many messages at the start are the same in both conversations: where the loop of `after` stops.
unfoldable pub common_length : List Message → List Message → ℕ
unfolding same_message
common_length (m ∷ messages) (p ∷ parent) =
    let rest = common_length messages parent in if same_message m p then suc rest else 0
common_length messages parent = 0

unfoldable pub after : List Message → List Message → List Message
unfolding common_length
after messages parent = drop (common_length messages parent) messages

-- The last message, or `None`.
unfoldable pub last : List Message → Option Message
last [] = none
last (m ∷ []) = some m
last (m ∷ n ∷ messages) = last (n ∷ messages)

module _ (encoded_length : String → ℕ) where
  unfoldable pub token_length : List Message → ℕ
  token_length [] = 0
  token_length (m ∷ messages) = 3 + encoded_length m.content + token_length messages

  -- `trim_to_tokens`, with a bound on the rounds of its loop; `none` if the loop has not come to its
  -- end by then.
  unfoldable pub trim_to_tokens : ℕ → ℕ → List Message → Option (List Message)
  unfolding token_length delete_first
  trim_to_tokens zero max_tokens messages = none
  trim_to_tokens (suc fuel) max_tokens messages =
      let rest = trim_to_tokens fuel max_tokens (delete_first messages) in
      if ltb max_tokens (token_length messages) && ltb 1 (length messages)
      then rest
      else some messages
