-- ===== src/Splits/Shares/Tests.antt =====
-- `compute` on inputs, over the decimal numbers of `Fixed`, in units of 10^-8.
use qisma_be.Prelude.{
  ℕ, ◌+◌, ◌≤◌, ◌<◌, ◌≡◌, refl, none, some, List, [], ◌∷◌, map, arith, get_or, leb, All,
}
use qisma_be.Prelude.Int.{ℤ, pos, ◌-ℤ◌, ◌+ℤ◌}
use qisma_be.Prelude.Result.{ok, err}
use qisma_be.Splits.Decimal.Fixed.{fixed, Fixed-IsExact, to_dp}
use qisma_be.Splits.Money.{to_minor_units}
use qisma_be.Splits.Money.Exact.{texts, worth_of_all}
use qisma_be.Splits.Debt.Transfers.{units}
use qisma_be.Splits.Shares.{
  sum_not_total, SplitResult, SplitInput, SplitType, unique_from, sum_texts, wrap,
}
use qisma_be.Splits.Shares.Ways.{compute, split_exact, exact_shares}
use qisma_be.Splits.Shares.Exact.{split_equal_exact}
use qisma_be.Splits.Shares.Fine.{split_equal_fine}
use qisma_be.Splits.Shares.Within.{IsIn}
use qisma_be.Splits.Shares.Named.{compute-named}
use qisma_be.Splits.Shares.Checked.{AddsUp, compute-AddsUp}

split_equal_exact_example :
    (r : SplitResult ℤ) × (ms : List ℕ) × (compute fixed leb
        (SplitInput.equal (4 ∷ 5 ∷ 4 ∷ 6 ∷ []))
        (pos 1_000_000_000)
        0
        (some 2)
      ≡ ok r)
    × (map (λ p. p.user_id) r.participant_shares ≡ 4 ∷ 5 ∷ 6 ∷ [])
    × (map (λ p. p.owed_amount) r.participant_shares ≡ texts fixed Fixed-IsExact 2 ms)
    × (worth_of_all fixed Fixed-IsExact (texts fixed Fixed-IsExact 2 ms)
        ≡ units fixed Fixed-IsExact (pos 1_000_000_000))
    × ((i j : ℕ) → i < 3 → j < 3 → get_or ms i 0 ≤ get_or ms j 0 + 1)
unfolding unique_from
split_equal_exact_example =
    split_equal_exact fixed Fixed-IsExact leb (4 ∷ 5 ∷ 4 ∷ 6 ∷ []) (pos 1_000_000_000)
      (pos 1_000_000_000) 0 2 (omega arith) refl (1000, 0, refl, refl) refl (omega arith)

-- 6.004 and 3.996 of 10, at scale 2.
abbrev exact_result : SplitResult ℤ
exact_result = record {
  split_type = SplitType.exact;
  participant_shares =
      record { user_id = 1; owed_amount = pos 600_000_000; percentage = none; shares = none }
      ∷ record { user_id = 2; owed_amount = pos 400_000_000; percentage = none; shares = none }
      ∷ [];
  sum_owed = pos 1_000_000_000;
  currency = 0;
  scale = 2;
}

exact_computed :
    compute fixed leb
      (SplitInput.exact ((1, pos 600_400_000) ∷ (2, pos 399_600_000) ∷ []))
      (pos 1_000_000_000)
      0
      none
    ≡ ok exact_result
unfolding compute split_exact sum_texts exact_shares wrap to_minor_units to_dp ◌+ℤ◌ ◌-ℤ◌
exact_computed = refl

compute-AddsUp_example : AddsUp fixed Fixed-IsExact (pos 1_000_000_000) exact_result
compute-AddsUp_example =
    compute-AddsUp fixed Fixed-IsExact (pos 1_000_000_000) leb
      (SplitInput.exact ((1, pos 600_400_000) ∷ (2, pos 399_600_000) ∷ [])) 0 none exact_result
      exact_computed

compute-named_example : All (λ p. IsIn (1 ∷ 2 ∷ []) p.user_id) exact_result.participant_shares
compute-named_example =
    compute-named fixed leb (SplitInput.exact ((1, pos 600_400_000) ∷ (2, pos 399_600_000) ∷ []))
      (pos 1_000_000_000) 0 none exact_result exact_computed

-- 10.005 at scale 2, between two.
split_equal_fine_example :
    compute fixed leb (SplitInput.equal (1 ∷ 2 ∷ [])) (pos 1_000_500_000) 0 (some 2)
    ≡ err sum_not_total
unfolding to_dp ◌-ℤ◌ unique_from
split_equal_fine_example =
    split_equal_fine fixed Fixed-IsExact leb (1 ∷ 2 ∷ []) (pos 1_000_500_000) (pos 1_000_500_000) 0
      2 (omega arith) refl refl (omega arith) (omega arith)
