-- ===== src/Splits/Rounding/Tests.antt =====
-- `distributeMinorByWeights` on inputs: 100.00 among three, as in `split-engines.spec.ts`.
use qisma_be.Prelude.{ℕ, ◌≡◌, refl, ◌≤◌, ◌%◌, ◌*◌, List, [], ◌∷◌, arith, length, sum}
use qisma_be.Prelude.Int.{pos}
use qisma_be.Prelude.Result.{ok}
use qisma_be.Splits.Rounding.{distribute_minor_by_weights}
use qisma_be.Splits.Rounding.Exact.{IsNearShare, distribute_exact}
use qisma_be.Splits.Rounding.Fair.{distribute_fair}
use qisma_be.Prelude.Sort.{sort, insert}

abbrev thirds : List ℕ
thirds = 100 ∷ 100 ∷ 100 ∷ []

distribute_thirds : distribute_minor_by_weights (pos 10_000) thirds ≡ ok (3334 ∷ 3333 ∷ 3333 ∷ [])
unfolding distribute_minor_by_weights sort insert
distribute_thirds = refl

distribute_by_remainder :
    distribute_minor_by_weights (pos 10) (1 ∷ 2 ∷ 4 ∷ []) ≡ ok (1 ∷ 3 ∷ 6 ∷ [])
unfolding distribute_minor_by_weights sort insert
distribute_by_remainder = refl

distribute_exact_example :
    (out : List ℕ) × (distribute_minor_by_weights (pos 10_000) thirds ≡ ok out)
    × (length out ≡ 3)
    × (sum out ≡ 10_000)
    × IsNearShare 10_000 thirds out
distribute_exact_example = distribute_exact 10_000 thirds (omega arith)

distribute_fair_example : (10 * 1 % 7 ≤ 10 * 4 % 7) × (10 * 1 % 7 ≡ 10 * 4 % 7 → 2 ≤ 0)
distribute_fair_example =
    distribute_fair 10 0 2 (1 ∷ 2 ∷ 4 ∷ []) (omega arith) distribute_by_remainder (omega arith)
      (omega arith) (omega arith) (omega arith)
