-- ===== src/Splits/Debt/Tests.antt =====
-- `simplify` on inputs, over the decimal numbers of `Fixed`, in units of 10^-8.
use qisma_be.Prelude.{ℕ, ◌+◌, ◌-◌, ◌*◌, ◌≤◌, ◌≡◌, refl, ◌⊎◌, some, List, [], ◌∷◌, arith, length}
use qisma_be.Prelude.Int.{ℤ, pos, negsuc, ◌-ℤ◌, ◌+ℤ◌}
use qisma_be.Prelude.Sort.{sort, insert}
use qisma_be.Splits.Decimal.Fixed.{fixed, Fixed-IsExact, to_dp}
use qisma_be.Splits.Debt.{Transfers, simplify, classify, settle, after, emit}
use qisma_be.Splits.Debt.Transfers.{paid_by, paid_to, paid_in_all, speck}
use qisma_be.Splits.Debt.Simplify.{
  owes, gets, owes_in_all, gets_in_all, unsettled, simplify_settles, simplify-dust,
}

-- 30.00 to be had by user 0, and owed by user 3, in two places.
abbrev chain : List (ℕ × ℤ)
chain = (0, pos 3_000_000_000) ∷ (1, pos 0) ∷ (2, pos 0) ∷ (3, negsuc 2_999_999_999) ∷ []

chain_collapses :
    simplify fixed chain 2
    ≡ some (record { from_user_id = 3; to_user_id = 0; amount = pos 3_000_000_000 } ∷ [])
unfolding simplify classify settle after emit sort insert to_dp ◌-ℤ◌ ◌+ℤ◌
chain_collapses = refl

-- 0.01 owed by user 1 and user 2, and 0.02 to be had by user 0.
abbrev cents : List (ℕ × ℤ)
cents = (0, pos 2_000_000) ∷ (1, negsuc 999_999) ∷ (2, negsuc 999_999) ∷ []

simplify_settles_example :
    (ts : Transfers fixed) × (simplify fixed chain 2 ≡ some ts)
    × (length ts ≤ unsettled fixed Fixed-IsExact 2 chain - 1)
    × ((user : ℕ) → paid_by fixed Fixed-IsExact user ts ≤ owes fixed Fixed-IsExact 2 user chain)
    × ((user : ℕ) → paid_to fixed Fixed-IsExact user ts ≤ gets fixed Fixed-IsExact 2 user chain)
    × (let all = paid_in_all fixed Fixed-IsExact ts + 4 * speck fixed Fixed-IsExact 2 in
        (owes_in_all fixed Fixed-IsExact 2 chain ≤ all)
        ⊎ (gets_in_all fixed Fixed-IsExact 2 chain ≤ all))
simplify_settles_example = simplify_settles fixed Fixed-IsExact 2 chain (
  (pos 3_000_000_000, refl),
  ((pos 0, refl), ((pos 0, refl), ((negsuc 2_999_999_999, refl), tt))),
)

simplify-dust_example : simplify fixed cents 2 ≡ some []
unfolding to_dp
simplify-dust_example =
    simplify-dust fixed Fixed-IsExact 2 cents
      ((pos 2_000_000, refl), ((negsuc 999_999, refl), ((negsuc 999_999, refl), tt)))
      λ user. ground arith
