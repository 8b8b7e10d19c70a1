-- ===== src/Result.antt =====
-- Exceptions: a method that may raise returns a `Result`. The messages are those of the source up
-- to the first value that is put into them.
use gpt_pilot.Prelude.{
  Option, none, some, ◌⊎◌, inl, inr, String, ◌≡◌, refl, arith, Bool, true, false, Option, some,
}

pub data PyError : Type 0 where
  value_error : String → PyError
  key_error : String → PyError
  index_error : PyError
  file_not_found : String → PyError
  attribute_error : PyError
  system_exit : PyError
  type_error : PyError
  retry_error : PyError
  api_error : String → PyError

pub data Result {u} (V : Type u) : Type u where
  raise : PyError → Result V
  ok : V → Result V

-- A statement after one that may raise.
abbrev pub ◌>>=◌ {u v} :
    {V : Type u} {W : Type v} (result : Result V) (continue : V → Result W) → Result W
raise error >>= continue = raise error
ok value >>= continue = continue value

abbrev pub ◌>>◌ {u} : {W : Type u} (check : Result (Unit {0})) (rest : Result W) → Result W
raise error >> rest = raise error
ok _ >> rest = rest

infixl 5 ◌>>=◌ ◌>>◌
-- `if test: raise error`
abbrev pub refuse_if : Bool → PyError → Result (Unit {0})
refuse_if false e = ok tt
refuse_if true e = raise e

-- `d[key]` of an entry that may be missing.
abbrev pub subscript {u} : {V : Type u} → String → Option V → Result V
subscript key none = raise (key_error key)
subscript key (some value) = ok value

pub ok-injective {ℓ} : {A : Type ℓ} {a b : A} → ok a ≡ ok b → a ≡ b
ok-injective h = ground arith

-- To split on an outcome and keep the equation.
pub Result-cases {ℓ} :
    {A : Type ℓ} (r : Result A) → ((a : A) × (r ≡ ok a)) ⊎ ((e : PyError) × (r ≡ raise e))
Result-cases (ok a) = inl (a, refl)
Result-cases (raise e) = inr (e, refl)

-- A successful chain had a successful first step.
pub >>=-eq-ok {u v} :
    {V : Type u} {W : Type v} (result : Result V) (continue : V → Result W) {w : W}
    (chain : (result >>= continue) ≡ ok w)
    → (value : V) × (result ≡ ok value) × (continue value ≡ ok w)
>>=-eq-ok (raise error) continue chain = absurd (ground arith)
>>=-eq-ok (ok value) continue chain = (value, refl, chain)
