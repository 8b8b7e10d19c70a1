-- ===== src/Telemetry/Bounds.antt =====
-- `calculate_statistics` of core/telemetry/__init__.py: where its numbers lie.
use Prim.Native.Nat.{◌/◌}
use native.Mathlib.Nat.{
  le-div_iff_mul-le, div-lt_iff_lt-mul, mul-pos, lt_of_mul-lt-mul_right, le_of_mul-le-mul_right,
}
use gpt_pilot.Prelude.{
  ℕ, zero, suc, ◌*◌, ◌≤◌, ◌<◌, ◌≡◌, refl, some, List, [], ◌∷◌, length, ltb, arith, if◌then◌else◌,
  ◌+◌,
}
use gpt_pilot.Telemetry.{statistics_of, least, greatest, sum, sorted, insert_number, get_elem?}

abbrev pub AllWithin : ℕ → ℕ → List ℕ → Type 0
AllWithin lo hi [] = Unit
AllWithin lo hi (n ∷ ns) = (lo ≤ n) × (n ≤ hi) × AllWithin lo hi ns

least-le : (n : ℕ) (ns : List ℕ) → least n ns ≤ n
least-le n [] = omega arith
least-le n (m ∷ ms) = ground (arith, least-le n ms, least-le m ms)

greatest-ge : (n : ℕ) (ns : List ℕ) → n ≤ greatest n ns
greatest-ge n [] = omega arith
greatest-ge n (m ∷ ms) = ground (arith, greatest-ge n ms, greatest-ge m ms)

AllWithin-wider :
    (lo lo' hi hi' : ℕ) (ns : List ℕ)
    → lo' ≤ lo
    → hi ≤ hi'
    → AllWithin lo hi ns
    → AllWithin lo' hi' ns
AllWithin-wider lo lo' hi hi' [] low high within = tt
AllWithin-wider lo lo' hi hi' (n ∷ ns) low high within = (
  omega (arith, within.0),
  omega (arith, within.1),
  AllWithin-wider lo lo' hi hi' ns low high within.2,
)

AllWithin-extremes : (n m : ℕ) (ns : List ℕ) → AllWithin (least n ns) (greatest m ns) ns
AllWithin-extremes n m [] = tt
AllWithin-extremes n m (k ∷ ks) = (
  ground (arith, least-le n ks, least-le k ks),
  ground (arith, greatest-ge m ks, greatest-ge k ks),
  AllWithin-extremes (if ltb k n then k else n) (if ltb m k then k else m) ks,
)

sum-within :
    (lo hi : ℕ) (ns : List ℕ)
    → AllWithin lo hi ns
    → (lo * length ns ≤ sum ns) × (sum ns ≤ hi * length ns)
sum-within lo hi [] within = (omega arith, omega arith)
sum-within lo hi (n ∷ ns) within =
    let (low, high) = sum-within lo hi ns within.2 in
    (omega (arith, low, within.0), omega (arith, high, within.1))

AllWithin-insert_number :
    (lo hi n : ℕ) (ns : List ℕ)
    → lo ≤ n
    → n ≤ hi
    → AllWithin lo hi ns
    → AllWithin lo hi (insert_number n ns)
AllWithin-insert_number lo hi n [] low high within = (low, high, tt)
AllWithin-insert_number lo hi n (m ∷ ms) low high within =
    ground
      (arith, within.0, within.1, within.2, AllWithin-insert_number lo hi n ms low high within.2)

AllWithin-sorted : (lo hi : ℕ) (ns : List ℕ) → AllWithin lo hi ns → AllWithin lo hi (sorted ns)
AllWithin-sorted lo hi [] within = tt
AllWithin-sorted lo hi (n ∷ ns) within =
    AllWithin-insert_number lo hi n (sorted ns) within.0 within.1
      (AllWithin-sorted lo hi ns within.2)

length-insert_number : (n : ℕ) (ns : List ℕ) → length (insert_number n ns) ≡ suc (length ns)
length-insert_number n [] = refl
length-insert_number n (m ∷ ms) = ground (arith, length-insert_number n ms)

length-sorted : (ns : List ℕ) → length (sorted ns) ≡ length ns
length-sorted [] = refl
length-sorted (n ∷ ns) = ground (arith, length-insert_number n (sorted ns), length-sorted ns)

get_elem?-within :
    (lo hi : ℕ) (ns : List ℕ) (i : ℕ)
    → AllWithin lo hi ns
    → i < length ns
    → (m : ℕ) × (get_elem? ns i ≡ some m) × (lo ≤ m) × (m ≤ hi)
get_elem?-within lo hi [] i within inside = absurd (omega arith)
get_elem?-within lo hi (n ∷ ns) zero within inside = (n, refl, within.0, within.1)
get_elem?-within lo hi (n ∷ ns) (suc i) within inside =
    get_elem?-within lo hi ns i within.2 (omega arith)

extremes : (n : ℕ) (ns : List ℕ) → AllWithin (least n ns) (greatest n ns) (n ∷ ns)
extremes n ns = (least-le n ns, greatest-ge n ns, AllWithin-extremes n n ns)

-- Rounding down to a multiple of the unit takes away less than one unit.
rounded :
    (total count unit : ℕ)
    → 0 < count
    → 0 < unit
    → (total / (count * unit) * unit * count ≤ total)
      × (total < (total / (count * unit) * unit + unit) * count)
rounded total count unit many positive =
    let q = total / (count * unit) in
    let nonzero : 0 < count * unit = mul-pos many positive in
    let low = (le-div_iff_mul-le {k = count * unit} {x = q} {y = total} nonzero).0 (omega arith) in
    let high =
      (div-lt_iff_lt-mul {k = count * unit} {x = total} {y = suc q} nonzero).0 (omega arith) in
    (omega (arith, low), omega (arith, high))

-- Of requests that were recorded the median lies between the least and the greatest, and the average
-- does not exceed the greatest and is less than one unit below the least: an average of times is cut
-- to whole seconds and can be below all of them.
pub statistics_of_lem :
    (unit n : ℕ) (ns : List ℕ)
    → 0 < unit
    → (avg : ℕ) × (median : ℕ) × ((statistics_of unit (n ∷ ns)).avg ≡ some avg)
      × ((statistics_of unit (n ∷ ns)).median ≡ some median)
      × ((statistics_of unit (n ∷ ns)).min ≡ some (least n ns))
      × ((statistics_of unit (n ∷ ns)).max ≡ some (greatest n ns))
      × (least n ns < avg + unit)
      × (avg ≤ greatest n ns)
      × (least n ns ≤ median)
      × (median ≤ greatest n ns)
unfolding statistics_of
statistics_of_lem unit n ns positive =
    let count = length (n ∷ ns) in
    let within = extremes n ns in
    let (low, high) = sum-within (least n ns) (greatest n ns) (n ∷ ns) within in
    let (below, over) = rounded (sum (n ∷ ns)) count unit (omega arith) positive in
    let (median, e, above, beneath) =
      get_elem?-within (least n ns) (greatest n ns) (sorted (n ∷ ns)) (count / 2)
        (AllWithin-sorted (least n ns) (greatest n ns) (n ∷ ns) within)
        (rw (length-sorted (n ∷ ns)) (omega arith)) in
    (
      sum (n ∷ ns) / (count * unit) * unit,
      median,
      refl,
      e,
      refl,
      refl,
      lt_of_mul-lt-mul_right count (omega (arith, low, over)),
      le_of_mul-le-mul_right {k = count} (omega (arith, below, high)) (omega arith),
      above,
      beneath,
    )
