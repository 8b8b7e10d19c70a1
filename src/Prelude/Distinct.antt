-- ===== src/Prelude/Distinct.antt =====
-- Lists that have no element twice, and the keys of a dictionary, which are such a list.
use gpt_pilot.Prelude.Dict.{Dict, keys, insert, erase}
use gpt_pilot.Prelude.Equality.{Eq, ◌==◌, string_eq}
use gpt_pilot.Prelude.Lists.{contains, contains-append}
use mathlib.Core.Bool.{false, ◌&&◌, ◌||◌, not}
use mathlib.Core.List.{List, [], ◌∷◌, ◌++◌}
use mathlib.Core.Path.{◌≡◌, refl}
use native.Mathlib.Omega.{arith}
use Prim.Native.String.{String}

module _ {A : Type 0} ⦃e : Eq A⦄ where
  abbrev pub IsDistinct : List A → Type 0
  IsDistinct [] = Unit
  IsDistinct (x ∷ xs) = (contains xs x ≡ false) × IsDistinct xs

  pub IsDistinct-append :
      (xs : List A) (x : A) → IsDistinct xs → contains xs x ≡ false → IsDistinct (xs ++ x ∷ [])
  IsDistinct-append [] x distinct new = (refl, tt)
  IsDistinct-append (y ∷ xs) x distinct new = (
    ground (arith, contains-append xs (x ∷ []) y, distinct.0),
    IsDistinct-append xs x distinct.1 (ground arith),
  )

module _ {V : Type 0} where
  pub contains-keys-insert :
      (k j : String) (v : V) (d : Dict V)
      → contains (keys (insert k v d)) j ≡ (j == k || contains (keys d) j)
  unfolding insert
  contains-keys-insert k j v [] = refl
  contains-keys-insert k j v ((i, w) ∷ d) = ground (arith, contains-keys-insert k j v d)

  pub contains-keys-erase :
      (k j : String) (d : Dict V)
      → contains (keys (erase k d)) j ≡ (not (j == k) && contains (keys d) j)
  unfolding erase
  contains-keys-erase k j [] = ground arith
  contains-keys-erase k j ((i, w) ∷ d) = ground (arith, contains-keys-erase k j d)

  pub IsDistinct-keys-insert :
      (k : String) (v : V) (d : Dict V) → IsDistinct (keys d) → IsDistinct (keys (insert k v d))
  unfolding insert
  IsDistinct-keys-insert k v [] distinct = (refl, tt)
  IsDistinct-keys-insert k v ((i, w) ∷ d) distinct = ground (
    arith,
    distinct.0,
    distinct.1,
    contains-keys-insert k i v d,
    IsDistinct-keys-insert k v d distinct.1,
  )

  pub IsDistinct-keys-erase :
      (k : String) (d : Dict V) → IsDistinct (keys d) → IsDistinct (keys (erase k d))
  unfolding erase
  IsDistinct-keys-erase k [] distinct = tt
  IsDistinct-keys-erase k ((i, w) ∷ d) distinct = ground (
    arith,
    distinct.0,
    distinct.1,
    contains-keys-erase k i d,
    IsDistinct-keys-erase k d distinct.1,
  )
