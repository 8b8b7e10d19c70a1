-- ===== src/Prelude/Maybe.antt =====
-- A chain of steps that may give no result.
use mathlib.Core.Path.{◌≡◌, refl}
use mathlib.Core.Option.{Option, none, some}
use native.Mathlib.Omega.{arith}

abbrev pub ◌>>=◌ {u v} :
    {V : Type u} {W : Type v} (o : Option V) (continue : V → Option W) → Option W
none >>= continue = none
some value >>= continue = continue value

infixl 5 ◌>>=◌
-- A chain that gives a result had a first step that gave one.
pub >>=-eq-some {u v} :
    {V : Type u} {W : Type v} (o : Option V) (continue : V → Option W) {w : W}
    (chain : (o >>= continue) ≡ some w)
    → (value : V) × (o ≡ some value) × (continue value ≡ some w)
>>=-eq-some none continue chain = absurd (ground arith)
>>=-eq-some (some value) continue chain = (value, refl, chain)
