-- ===== src/Splits/Rounding/Exact.antt =====
-- `distributeMinorByWeights` as a whole: its parts add up to the total.
use qisma_be.Prelude.{
  ℕ, zero, suc, ◌+◌, ◌-◌, ◌*◌, ◌/◌, ◌≤◌, ◌<◌, ◌≡◌, refl, ◌∙◌, List, [], ◌∷◌, arith, length,
  length-map, length-range, get_or, sum, count, count-take-le, count-range, range, range-below, All,
}
use qisma_be.Prelude.Int.{pos}
use qisma_be.Prelude.Sort.{sort, length-sort, All-sort, count-sort}
use qisma_be.Prelude.Result.{ok}
use qisma_be.Splits.Rounding.{checked, by_frac, hand_out, allocate, distribute_minor_by_weights}
use qisma_be.Splits.Rounding.Floors.{floors, remainders, get_or-floors, leftover_bounds}
use qisma_be.Splits.Rounding.Leftover.{hand_out_lem, get_or-hand_out}

-- The indices in the order in which they get a unit, and the state of the loop at its end.
abbrev pub order : ℕ → List ℕ → List ℕ
order total ws = sort (by_frac (remainders total (sum ws) ws)) (range 0 (length ws))

abbrev pub loop : ℕ → List ℕ → ℕ × List ℕ
loop total ws =
    let start = floors total (sum ws) ws in hand_out (total - sum start) (order total ws) start

pub length-order : (total : ℕ) (ws : List ℕ) → length (order total ws) ≡ length ws
length-order total ws =
    length-sort (by_frac (remainders total (sum ws) ws)) (range 0 (length ws))
    ∙ length-range 0 (length ws)

pub count-order : (total j : ℕ) (ws : List ℕ) → j < length ws → count j (order total ws) ≡ 1
count-order total j ws h =
    count-sort (by_frac (remainders total (sum ws) ws)) j (range 0 (length ws))
    ∙ count-range j 0 (length ws) (omega arith) (omega arith)

pub order-below :
    (total : ℕ) (ws : List ℕ) → All (λ i. i < length (floors total (sum ws) ws)) (order total ws)
order-below total ws =
    let n = length ws in
    rw (length-map (λ w. total * w / sum ws) ws) (
      All-sort (by_frac (remainders total (sum ws) ws)) (λ i. i < n) (range 0 n)
        (range-below 0 n n (omega arith)))

pub loop_lem :
    (total : ℕ) (ws : List ℕ)
    → 0 < sum ws
    → let (left, out) = loop total ws in (left ≡ 0) × (length out ≡ length ws) × (sum out ≡ total)
loop_lem total ws h =
    let start = floors total (sum ws) ws in
    let (low, high) = leftover_bounds total ws h in
    let (a, b, c) =
      hand_out_lem (total - sum start) (order total ws) start (omega (arith, length-order total ws))
        (order-below total ws) in
    (a, b ∙ length-map (λ w. total * w / sum ws) ws, omega (arith, c))

checked-ok : (r : ℕ × List ℕ) → r.0 ≡ 0 → checked r ≡ ok r.1
checked-ok (zero, out) e = refl
checked-ok (suc n, out) e = cc

pub allocate-loop :
    (total : ℕ) (ws : List ℕ) → 0 < sum ws → allocate total ws ≡ ok (loop total ws).1
unfolding allocate
allocate-loop total ws h = checked-ok (loop total ws) (loop_lem total ws h).0

pub distribute-loop :
    (total : ℕ) (ws : List ℕ)
    → 0 < sum ws
    → distribute_minor_by_weights (pos total) ws ≡ ok (loop total ws).1
unfolding distribute_minor_by_weights
distribute-loop total [] h = absurd (omega arith)
distribute-loop total (w ∷ ws) h = ground (arith, allocate-loop total (w ∷ ws) h)

-- Each part is the floor of its exact share, or one more.
abbrev pub IsNearShare : ℕ → List ℕ → List ℕ → Type 0
IsNearShare total ws out =
    (j : ℕ)
    → j < length ws
    → let share = total * get_or ws j 0 / sum ws in
      (share ≤ get_or out j 0) × (get_or out j 0 ≤ share + 1)

loop-IsNearShare : (total : ℕ) (ws : List ℕ) → IsNearShare total ws (loop total ws).1
loop-IsNearShare total ws j h =
    let start = floors total (sum ws) ws in
    omega (
      arith,
      get_or-hand_out (total - sum start) j (order total ws) start (order-below total ws),
      get_or-floors total (sum ws) ws j h,
      count-take-le j (total - sum start) (order total ws),
      count-order total j ws h,
    )

-- For a total that is not negative and weights whose sum is positive, the method does not throw:
-- it returns a part for each weight, the parts add up to exactly the total, and each part is the
-- floor of its exact share or one unit more.
pub distribute_exact :
    (total : ℕ) (ws : List ℕ)
    → 0 < sum ws
    → (out : List ℕ) × (distribute_minor_by_weights (pos total) ws ≡ ok out)
      × (length out ≡ length ws)
      × (sum out ≡ total)
      × IsNearShare total ws out
distribute_exact total ws h =
    let (_, count_ok, sum_ok) = loop_lem total ws h in
    ((loop total ws).1, distribute-loop total ws h, count_ok, sum_ok, loop-IsNearShare total ws)
