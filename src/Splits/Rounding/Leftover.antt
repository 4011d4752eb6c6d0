-- ===== src/Splits/Rounding/Leftover.antt =====
-- The loop of `distributeMinorByWeights` that hands out the leftover units.
use qisma_be.Prelude.{
  ℕ, zero, suc, ◌+◌, ◌≤◌, ◌<◌, ◌≡◌, refl, List, [], ◌∷◌, arith, length, length-set, get_or,
  get_or-set, set, sum, sum-set, take, count, All,
}
use qisma_be.Splits.Rounding.{hand_out}

-- With an index for each unit that is left, all are handed out, and an index gets a unit for each
-- time that it stands among the first `leftover` ones.
pub hand_out_lem :
    (leftover : ℕ) (indices out : List ℕ)
    → leftover ≤ length indices
    → All (λ i. i < length out) indices
    → let (left, new) = hand_out leftover indices out in
      (left ≡ 0) × (length new ≡ length out) × (sum new ≡ sum out + leftover)
unfolding hand_out
hand_out_lem leftover [] out l a = ground arith
hand_out_lem zero (i ∷ is) out l a = (refl, refl, omega arith)
hand_out_lem (suc n) (i ∷ is) out l (p, ps) =
    let v = get_or out i 0 + 1 in
    let ps' : All (λ k. k < length (set out i v)) is = rw (length-set out i v) ps in
    let (a, b, c) = hand_out_lem n is (set out i v) (omega arith) ps' in
    (a, omega (arith, b, length-set out i v), omega (arith, c, sum-set out i v p))

pub get_or-hand_out :
    (leftover j : ℕ) (indices out : List ℕ)
    → All (λ i. i < length out) indices
    → get_or (hand_out leftover indices out).1 j 0
      ≡ get_or out j 0 + count j (take leftover indices)
unfolding hand_out
get_or-hand_out zero j [] out a = omega arith
get_or-hand_out zero j (i ∷ is) out a = omega arith
get_or-hand_out (suc n) j [] out a = omega arith
get_or-hand_out (suc n) j (i ∷ is) out (p, ps) =
    let v = get_or out i 0 + 1 in
    let ps' : All (λ k. k < length (set out i v)) is = rw (length-set out i v) ps in
    ground (arith, get_or-hand_out n j is (set out i v) ps', get_or-set out i j v 0 p)
