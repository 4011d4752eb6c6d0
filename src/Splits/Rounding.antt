-- ===== src/Splits/Rounding.antt =====
-- src/modules/splits/rounding.engine.ts, `distributeMinorByWeights`: the largest-remainder method.
-- A weight is a natural number, since the one caller throws at a negative weight; the total is a
-- signed integer, since the function itself tests its sign.
pub mod Floors
pub mod Leftover
pub mod Exact
pub mod Fair
mod Tests
use qisma_be.Prelude.{
  ℕ, zero, suc, ◌+◌, ◌-◌, ◌*◌, ◌/◌, ◌%◌, Bool, List, [], ◌∷◌, map, ltb, leb, ◌==◌, if◌then◌else◌,
  length, get_or, set, sum, range,
}
use qisma_be.Prelude.Int.{ℤ, pos, negsuc}
use qisma_be.Prelude.Sort.{sort}
use qisma_be.Prelude.Result.{Result, ok, err}

pub data RoundingError : Type 0 where
  weights_not_positive total_negative allocation_failed : RoundingError

-- The comparator on indices: the larger remainder first, then the smaller index.
pub by_frac : List ℕ → ℕ → ℕ → Bool
by_frac remainders i j =
    if get_or remainders j 0 == get_or remainders i 0
    then leb i j
    else ltb (get_or remainders j 0) (get_or remainders i 0)

-- The `while` loop over the sorted indices: what is left over, and the parts.
pub hand_out : ℕ → List ℕ → List ℕ → ℕ × List ℕ
hand_out leftover [] out = (leftover, out)
hand_out zero (i ∷ indices) out = (zero, out)
hand_out (suc leftover) (i ∷ indices) out =
    hand_out leftover indices (set out i (get_or out i 0 + 1))

abbrev checked : ℕ × List ℕ → Result RoundingError (List ℕ)
checked (zero, out) = ok out
checked (suc _, out) = err allocation_failed

pub allocate : ℕ → List ℕ → Result RoundingError (List ℕ)
unfolding by_frac hand_out
allocate total weights =
    let sum_w = sum weights in
    let floors = map (λ w. total * w / sum_w) weights in
    let remainders = map (λ w. total * w % sum_w) weights in
    let indices = sort (by_frac remainders) (range 0 (length weights)) in
    checked (hand_out (total - sum floors) indices floors)

unfoldable pub distribute_minor_by_weights : ℤ → List ℕ → Result RoundingError (List ℕ)
unfolding allocate
distribute_minor_by_weights total [] = ok []
distribute_minor_by_weights (pos total) (w ∷ ws) =
    if sum (w ∷ ws) == 0 then err weights_not_positive else allocate total (w ∷ ws)
distribute_minor_by_weights (negsuc _) (w ∷ ws) =
    if sum (w ∷ ws) == 0 then err weights_not_positive else err total_negative
