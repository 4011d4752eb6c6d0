-- ===== src/Splits/Money/Tests.antt =====
-- `distributeMoneyByWeights` and `distributeEqual` on inputs, over the decimal numbers of `Fixed`, in
-- units of 10^-8.
use qisma_be.Prelude.{ℕ, ◌+◌, ◌≤◌, ◌<◌, ◌≡◌, refl, List, [], ◌∷◌, arith, length, get_or}
use qisma_be.Prelude.Int.{ℤ, pos}
use qisma_be.Prelude.Result.{ok}
use qisma_be.Splits.Decimal.Fixed.{fixed, Fixed-IsExact, to_dp}
use qisma_be.Splits.Rounding.Exact.{IsNearShare}
use qisma_be.Splits.Money.{
  to_minor_units, minor_weights, distribute_money_by_weights, distribute_equal,
}
use qisma_be.Splits.Money.Exact.{
  texts, worth_of_all, distribute_money_exact, distribute_equal_exact,
}
use qisma_be.Splits.Debt.Transfers.{units}

-- 50, 30 and 20 per cent.
abbrev percents : List ℤ
percents = pos 5_000_000_000 ∷ pos 3_000_000_000 ∷ pos 2_000_000_000 ∷ []

percents_minor : minor_weights fixed percents 2 ≡ ok (5000 ∷ 3000 ∷ 2000 ∷ [])
unfolding minor_weights to_minor_units to_dp
percents_minor = refl

distribute_money_exact_example :
    (n : ℕ) × (ms : List ℕ) × (distribute_money_by_weights fixed (pos 1_000_000_000) percents 2
      ≡ ok (texts fixed Fixed-IsExact 2 ms))
    × (length ms ≡ 3)
    × (worth_of_all fixed Fixed-IsExact (texts fixed Fixed-IsExact 2 ms)
        ≡ units fixed Fixed-IsExact (to_dp (pos 1_000_000_000) 2))
    × IsNearShare n (5000 ∷ 3000 ∷ 2000 ∷ []) ms
unfolding to_dp
distribute_money_exact_example =
    distribute_money_exact fixed Fixed-IsExact (pos 1_000_000_000) (pos 1_000_000_000) percents
      (5000 ∷ 3000 ∷ 2000 ∷ []) 2 (omega arith) refl refl percents_minor (omega arith)

distribute_equal_exact_example :
    (ms : List ℕ) × (distribute_equal fixed (pos 1_000_000_000) 3 2
      ≡ ok (texts fixed Fixed-IsExact 2 ms))
    × (length ms ≡ 3)
    × (worth_of_all fixed Fixed-IsExact (texts fixed Fixed-IsExact 2 ms)
        ≡ units fixed Fixed-IsExact (to_dp (pos 1_000_000_000) 2))
    × ((i j : ℕ) → i < 3 → j < 3 → get_or ms i 0 ≤ get_or ms j 0 + 1)
unfolding to_dp
distribute_equal_exact_example =
    distribute_equal_exact fixed Fixed-IsExact (pos 1_000_000_000) (pos 1_000_000_000) 3 2
      (omega arith) refl refl (omega arith)
