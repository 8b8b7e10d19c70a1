-- ===== src/Convo/Trim.antt =====
-- What `trim_to_tokens` keeps of a conversation, and how many rounds its loop takes.
use gpt_pilot.Prelude.{
  ap, ◌∙◌, some, take, drop, subst, Bool-cases, ℕ, ◌≤◌, ◌<◌, String, ◌≡◌, refl, ◌⊎◌, inl, inr, true,
  some, List, [], ◌∷◌, ◌++◌, length, arith, ltb, ◌==◌, zero, suc, if◌then◌else◌,
}
use gpt_pilot.Convo.{
  Message, Role, role_eq, token_length, trim_to_tokens, delete_first, starts_with_system,
}

length-delete_first :
    (m n : Message) (messages : List Message)
    → length (delete_first (m ∷ n ∷ messages)) ≡ suc (length messages)
unfolding delete_first
length-delete_first m n messages = ground arith

-- A leading system message followed by the newest of the other messages.
abbrev pub IsTrimmed : List Message → List Message → Type 0
IsTrimmed messages kept = (k : ℕ) × (kept ≡ take 1 messages ++ drop (suc k) messages)

IsTrimmed-delete_first :
    (m n : Message) (messages kept : List Message)
    → starts_with_system (m ∷ n ∷ messages) ≡ true
    → (starts_with_system (delete_first (m ∷ n ∷ messages)) ≡ true
        → IsTrimmed (delete_first (m ∷ n ∷ messages)) kept)
    → IsTrimmed (m ∷ n ∷ messages) kept
unfolding delete_first
IsTrimmed-delete_first m n messages kept h rest =
    let e : (if m.role == Role.system then m ∷ messages else n ∷ messages) ≡ m ∷ messages =
      ground (arith, h) in
    let (k, trimmed) = subst (λ l. starts_with_system l ≡ true → IsTrimmed l kept) e rest h in
    (suc k, trimmed)

module _ (encoded_length : String → ℕ) where
  trim_to_tokens_all :
      (fuel max_tokens : ℕ) (messages : List Message)
      → length messages < fuel
      → (kept : List Message) × (trim_to_tokens encoded_length fuel max_tokens messages ≡ some kept)
        × ((token_length encoded_length kept ≤ max_tokens) ⊎ (length kept ≤ 1))
        × (starts_with_system messages ≡ true → IsTrimmed messages kept)
        × (token_length encoded_length messages ≤ max_tokens → kept ≡ messages)
  unfolding trim_to_tokens
  trim_to_tokens_all zero max_tokens messages enough = absurd (omega (arith, enough))
  trim_to_tokens_all (suc fuel) max_tokens [] enough =
      ([], ground arith, inr (omega arith), (λ h. absurd (ground arith)), λ h. refl)
  trim_to_tokens_all (suc fuel) max_tokens (m ∷ []) enough =
      (m ∷ [], ground arith, inr (omega arith), (λ h. (0, refl)), λ h. refl)
  trim_to_tokens_all (suc fuel) max_tokens (m ∷ n ∷ messages) enough =
      let all = m ∷ n ∷ messages in
      let (kept, run, small, trimmed, within) =
        trim_to_tokens_all fuel max_tokens (delete_first all)
          (omega (arith, enough, length-delete_first m n messages)) in
      elim (Bool-cases (ltb max_tokens (token_length encoded_length all))) [
        | inl over ↦ (
          kept,
          ground (arith, over, run),
          small,
          (λ h. IsTrimmed-delete_first m n messages kept h trimmed),
          λ h. absurd (ground (arith, over, h)),
        )
        | inr fits ↦
            (all, ground (arith, fits), inl (ground (arith, fits)), (λ h. (0, refl)), λ h. refl)
      ]

  -- More rounds than there are messages are enough. The result is then within the bound or has at
  -- most one message.
  pub trim_to_tokens_lem :
      (fuel max_tokens : ℕ) (messages : List Message)
      → length messages < fuel
      → (kept : List Message) × (trim_to_tokens encoded_length fuel max_tokens messages ≡ some kept)
        × ((token_length encoded_length kept ≤ max_tokens) ⊎ (length kept ≤ 1))
  trim_to_tokens_lem fuel max_tokens messages enough =
      let (kept, run, small, _, _) = trim_to_tokens_all fuel max_tokens messages enough in
      (kept, run, small)

  -- Of a conversation that starts with a system message that message and the newest of the others are
  -- kept.
  pub trim_to_tokens-IsTrimmed :
      (fuel max_tokens : ℕ) (messages kept : List Message)
      → length messages < fuel
      → starts_with_system messages ≡ true
      → trim_to_tokens encoded_length fuel max_tokens messages ≡ some kept
      → IsTrimmed messages kept
  trim_to_tokens-IsTrimmed fuel max_tokens messages kept enough system run =
      let (k, run', _, trimmed, _) = trim_to_tokens_all fuel max_tokens messages enough in
      let e : k ≡ kept = ground (arith, run, run') in subst (IsTrimmed messages) e (trimmed system)

  -- A conversation within the bound is left as it is.
  pub trim_to_tokens_within :
      (fuel max_tokens : ℕ) (messages : List Message)
      → length messages < fuel
      → token_length encoded_length messages ≤ max_tokens
      → trim_to_tokens encoded_length fuel max_tokens messages ≡ some messages
  trim_to_tokens_within fuel max_tokens messages enough within =
      let (k, run, _, _, kept) = trim_to_tokens_all fuel max_tokens messages enough in
      run ∙ ap some (kept within)
