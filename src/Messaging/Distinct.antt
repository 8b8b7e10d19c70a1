-- ===== src/Messaging/Distinct.antt =====
-- Lists that have no queue twice.
use gpt_pilot.Prelude.{
  ℕ, ◌≡◌, refl, true, false, not, ◌&&◌, List, [], ◌∷◌, ◌++◌, contains, contains-append, erase_first,
  arith, ◌==◌, nat_eq, string_eq, is_empty,
}
use gpt_pilot.Messaging.Delivery.{AllDistinct}

pub AllDistinct-append :
    (qs : List ℕ) (q : ℕ) → AllDistinct qs → contains qs q ≡ false → AllDistinct (qs ++ q ∷ [])
AllDistinct-append [] q distinct new = (refl, tt)
AllDistinct-append (p ∷ qs) q distinct new =
    ground (arith, AllDistinct-append qs q distinct.1, contains-append qs (q ∷ []) p, distinct.0)

pub contains-erase_first :
    (qs : List ℕ) (q p : ℕ)
    → AllDistinct qs
    → contains (erase_first (λ r. r == q) qs) p ≡ (contains qs p && not (p == q))
unfolding erase_first
contains-erase_first [] q p distinct = refl
contains-erase_first (r ∷ qs) q p distinct =
    ground (arith, contains-erase_first qs q p distinct.1, distinct.0)

pub AllDistinct-erase_first :
    (qs : List ℕ) (q : ℕ) → AllDistinct qs → AllDistinct (erase_first (λ r. r == q) qs)
unfolding erase_first
AllDistinct-erase_first [] q distinct = tt
AllDistinct-erase_first (r ∷ qs) q distinct = ground (
  arith,
  AllDistinct-erase_first qs q distinct.1,
  contains-erase_first qs q r distinct.1,
  distinct.0,
)

pub erase_first-absent :
    (qs : List ℕ) (q : ℕ) → contains qs q ≡ false → erase_first (λ r. r == q) qs ≡ qs
unfolding erase_first
erase_first-absent [] q h = refl
erase_first-absent (r ∷ qs) q h = ground (arith, erase_first-absent qs q)

pub nil_of_is_empty : (qs : List ℕ) → is_empty qs ≡ true → qs ≡ []
nil_of_is_empty [] h = refl
nil_of_is_empty (q ∷ qs) h = absurd (ground arith)
