-- ===== src/Splits/Rounding/Floors.antt =====
-- The floors and the remainders that `distributeMinorByWeights` starts from.
use native.Mathlib.Nat.{le_of_mul-le-mul_right}
use qisma_be.Prelude.{
  ℕ, zero, suc, ◌+◌, ◌-◌, ◌*◌, ◌/◌, ◌%◌, ◌≤◌, ◌<◌, ◌≡◌, refl, List, [], ◌∷◌, map, arith, length,
  get_or, sum,
}

module _ (total sum_w : ℕ) where
  abbrev pub floors : List ℕ → List ℕ
  floors = map (λ w. total * w / sum_w)

  abbrev pub remainders : List ℕ → List ℕ
  remainders = map (λ w. total * w % sum_w)

  -- Each share is its floor and its remainder.
  sum-floors : (ws : List ℕ) → sum (floors ws) * sum_w + sum (remainders ws) ≡ total * sum ws
  sum-floors [] = omega arith
  sum-floors (w ∷ ws) = grind (arith, sum-floors ws)

  sum-remainders-le : (ws : List ℕ) → 0 < sum_w → sum (remainders ws) ≤ length ws * (sum_w - 1)
  sum-remainders-le [] h = omega arith
  sum-remainders-le (w ∷ ws) h = grind (arith, sum-remainders-le ws h)

  pub get_or-floors :
      (ws : List ℕ) (j : ℕ) → j < length ws → get_or (floors ws) j 0 ≡ total * get_or ws j 0 / sum_w
  get_or-floors [] j h = elim h [ ]
  get_or-floors (w ∷ ws) zero h = refl
  get_or-floors (w ∷ ws) (suc j) h = get_or-floors ws j (omega arith)

-- The leftover times the sum of the weights is the sum of the remainders.
module _ (s f r t n : ℕ) (pos : 0 < s) (parts : f * s + r ≡ t * s) (small : r ≤ n * (s - 1)) where
  floors_le : f ≤ t
  floors_le = le_of_mul-le-mul_right {k = s} (omega arith) pos

  floors_ge : t ≤ f + n
  floors_ge = le_of_mul-le-mul_right {k = s} (grind arith) pos

-- The floors do not exceed the total, and what is left is at most one unit for each weight.
pub leftover_bounds :
    (total : ℕ) (ws : List ℕ)
    → 0 < sum ws
    → (sum (floors total (sum ws) ws) ≤ total)
      × (total ≤ sum (floors total (sum ws) ws) + length ws)
leftover_bounds total ws h =
    let s = sum ws in
    let f = sum (floors total s ws) in
    let r = sum (remainders total s ws) in
    let e = sum-floors total s ws in
    let b = sum-remainders-le total s ws h in
    (floors_le s f r total (length ws) h e b, floors_ge s f r total (length ws) h e b)
