-- ===== src/Splits/Rounding/Fair.antt =====
-- Who gets the leftover units in `distributeMinorByWeights`.
use qisma_be.Prelude.{
  ℕ, zero, suc, ◌-◌, ◌*◌, ◌/◌, ◌%◌, ◌≤◌, ◌<◌, ◌≡◌, refl, Bool, true, List, [], ◌∷◌, arith, length,
  get_or, sum, take, count, All, range, dec_eq, inl, inr,
}
use qisma_be.Prelude.Sort.{IsSorted, IsPreorder, sort-IsSorted}
use qisma_be.Splits.Rounding.{by_frac, distribute_minor_by_weights}
use qisma_be.Prelude.Int.{pos}
use qisma_be.Prelude.Result.{ok}
use qisma_be.Splits.Rounding.Floors.{floors, remainders, get_or-floors}
use qisma_be.Splits.Rounding.Leftover.{get_or-hand_out}
use qisma_be.Splits.Rounding.Exact.{order, loop, order-below, count-order, distribute-loop}

by_frac-IsPreorder : (rs : List ℕ) → IsPreorder (by_frac rs)
unfolding by_frac
by_frac-IsPreorder rs = record { trans = λ i j k p q. ground arith; total = λ i j p. ground arith }

All-count : (P : ℕ → Type 0) (a : ℕ) (xs : List ℕ) → All P xs → 0 < count a xs → P a
All-count P a [] ps h = absurd (omega arith)
All-count P a (x ∷ xs) (p, ps) h = elim (dec_eq x a) [
  | inl e ↦ rw e at p
  | inr ne ↦ All-count P a xs ps (ground arith)
]

-- In a sorted list, what stands among the first n comes before what does not.
IsSorted-take :
    (le : ℕ → ℕ → Bool) (n i j : ℕ) (xs : List ℕ)
    → IsSorted le xs
    → 0 < count j (take n xs)
    → count i (take n xs) ≡ 0
    → 0 < count i xs
    → le j i ≡ true
IsSorted-take le zero i j xs s hj hi h = absurd (omega arith)
IsSorted-take le (suc n) i j [] s hj hi h = absurd (omega arith)
IsSorted-take le (suc n) i j (x ∷ xs) (first, s) hj hi h = elim (dec_eq x j) [
  | inl e ↦ rw (← e) (All-count (λ y. le x y ≡ true) i xs first (ground arith))
  | inr ne ↦ IsSorted-take le n i j xs s (ground arith) (ground arith) (ground arith)
]

loop_fair :
    (total i j : ℕ) (ws : List ℕ)
    → i < length ws
    → j < length ws
    → get_or (loop total ws).1 i 0 ≡ total * get_or ws i 0 / sum ws
    → total * get_or ws j 0 / sum ws < get_or (loop total ws).1 j 0
    → by_frac (remainders total (sum ws) ws) j i ≡ true
loop_fair total i j ws hi hj ei ej =
    let start = floors total (sum ws) ws in
    let rs = remainders total (sum ws) ws in
    let got = λ (k : ℕ).
      get_or-hand_out (total - sum start) k (order total ws) start (order-below total ws) in
    IsSorted-take (by_frac rs) (total - sum start) i j (order total ws)
      (sort-IsSorted (by_frac rs) (by_frac-IsPreorder rs) (range 0 (length ws)))
      (omega (arith, got j, get_or-floors total (sum ws) ws j hj))
      (omega (arith, got i, get_or-floors total (sum ws) ws i hi))
      (omega (arith, count-order total i ws hi))

get_or-remainders :
    (total s : ℕ) (ws : List ℕ) (j : ℕ)
    → j < length ws
    → get_or (remainders total s ws) j 0 ≡ total * get_or ws j 0 % s
get_or-remainders total s [] j h = elim h [ ]
get_or-remainders total s (w ∷ ws) zero h = refl
get_or-remainders total s (w ∷ ws) (suc j) h = get_or-remainders total s ws j (omega arith)

by_frac-le :
    (rs : List ℕ) (i j : ℕ)
    → by_frac rs j i ≡ true
    → (get_or rs i 0 ≤ get_or rs j 0) × (get_or rs i 0 ≡ get_or rs j 0 → j ≤ i)
unfolding by_frac
by_frac-le rs i j h = (ground arith, λ e. ground arith)

-- Where the method returns `out`, an extra unit goes to the larger remainder: if the part of `j`
-- is above its floor and the part of `i` is not, then the remainder of `i` is not larger than that
-- of `j`, and if the two are equal then `j` does not stand after `i`.
pub distribute_fair :
    (total i j : ℕ) (ws : List ℕ) {out : List ℕ}
    → 0 < sum ws
    → distribute_minor_by_weights (pos total) ws ≡ ok out
    → i < length ws
    → j < length ws
    → get_or out i 0 ≡ total * get_or ws i 0 / sum ws
    → total * get_or ws j 0 / sum ws < get_or out j 0
    → (total * get_or ws i 0 % sum ws ≤ total * get_or ws j 0 % sum ws)
      × (total * get_or ws i 0 % sum ws ≡ total * get_or ws j 0 % sum ws → j ≤ i)
distribute_fair total i j ws {out} h e hi hj ei ej =
    let same : out ≡ (loop total ws).1 = cc (distribute-loop total ws h) in
    let rs = remainders total (sum ws) ws in
    let (a, b) = by_frac-le rs i j (loop_fair total i j ws hi hj (rw same at ei) (rw same at ej)) in
    let ri = get_or-remainders total (sum ws) ws i hi in
    let rj = get_or-remainders total (sum ws) ws j hj in (omega arith, λ q. b (omega arith))
