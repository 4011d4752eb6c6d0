-- ===== src/Splits/Balance/Tests.antt =====
-- `computeGroupBalances` on inputs, over the decimal numbers of `Fixed`, in units of 10^-8.
use qisma_be.Prelude.{
  ℕ, ◌+◌, ◌*◌, ◌≤◌, ◌≡◌, refl, ◌⊎◌, true, some, List, [], ◌∷◌, length, ◌==◌, All,
}
use qisma_be.Prelude.Int.{ℤ, pos, pos_part, neg_part, ◌+ℤ◌}
use qisma_be.Splits.Decimal.Fixed.{fixed, Fixed-IsExact}
use qisma_be.Splits.Debt.Transfers.{paid_by, paid_to, paid_in_all, speck}
use qisma_be.Splits.Debt.Simplify.{owes, gets, owes_in_all, gets_in_all}
use qisma_be.Splits.Balance.{Entry, Balances, compute_group_balances}
use qisma_be.Splits.Balance.Nets.{net_of, IsEntry, IsAmountText}
use qisma_be.Splits.Balance.Settled.{balances_are_net, balanced_settles}

-- User 1 pays 30, user 2 pays 12; each is shared by users 1, 2 and 3.
abbrev dinner : Entry ℤ
dinner = record {
  paid_by = 1;
  total = pos 3_000_000_000;
  owed = (1, pos 1_000_000_000) ∷ (2, pos 1_000_000_000) ∷ (3, pos 1_000_000_000) ∷ [];
}

abbrev taxi : Entry ℤ
taxi = record {
  paid_by = 2;
  total = pos 1_200_000_000;
  owed = (1, pos 400_000_000) ∷ (2, pos 400_000_000) ∷ (3, pos 400_000_000) ∷ [];
}

abbrev entries : List (Entry ℤ)
entries = dinner ∷ taxi ∷ []

ten : IsAmountText fixed Fixed-IsExact 2 (pos 1_000_000_000)
ten = (pos 1_000_000_000, refl, (1000, 0, refl, refl))

four : IsAmountText fixed Fixed-IsExact 2 (pos 400_000_000)
four = (pos 400_000_000, refl, (400, 0, refl, refl))

entries-IsEntry : All (IsEntry fixed Fixed-IsExact 2) entries
entries-IsEntry = (
  ((pos 3_000_000_000, refl, (3000, 0, refl, refl)), (ten, (ten, (ten, tt)))),
  (((pos 1_200_000_000, refl, (1200, 0, refl, refl)), (four, (four, (four, tt)))), tt),
)

balances_are_net_example :
    (b : Balances ℤ) × (compute_group_balances fixed 9 entries 2 ≡ some b)
    × ((user : ℕ)
        → let own = net_of fixed Fixed-IsExact (λ k. k == user) entries in
          (owes fixed Fixed-IsExact 2 user b.net_by_user_id ≡ neg_part own)
          × (gets fixed Fixed-IsExact 2 user b.net_by_user_id ≡ pos_part own)
          × (paid_by fixed Fixed-IsExact user b.transfers ≤ neg_part own)
          × (paid_to fixed Fixed-IsExact user b.transfers ≤ pos_part own))
    × (pos_part (net_of fixed Fixed-IsExact (λ _. true) entries)
          + owes_in_all fixed Fixed-IsExact 2 b.net_by_user_id
        ≡ neg_part (net_of fixed Fixed-IsExact (λ _. true) entries)
          + gets_in_all fixed Fixed-IsExact 2 b.net_by_user_id)
    × (let all =
          paid_in_all fixed Fixed-IsExact b.transfers
          + length b.net_by_user_id * speck fixed Fixed-IsExact 2 in
        (owes_in_all fixed Fixed-IsExact 2 b.net_by_user_id ≤ all)
        ⊎ (gets_in_all fixed Fixed-IsExact 2 b.net_by_user_id ≤ all))
balances_are_net_example = balances_are_net fixed Fixed-IsExact 2 9 entries entries-IsEntry

balanced_settles_example :
    (b : Balances ℤ) × (compute_group_balances fixed 9 entries 2 ≡ some b)
    × (owes_in_all fixed Fixed-IsExact 2 b.net_by_user_id
        ≡ gets_in_all fixed Fixed-IsExact 2 b.net_by_user_id)
    × (gets_in_all fixed Fixed-IsExact 2 b.net_by_user_id
        ≤ paid_in_all fixed Fixed-IsExact b.transfers
          + length b.net_by_user_id * speck fixed Fixed-IsExact 2)
unfolding ◌+ℤ◌
balanced_settles_example =
    balanced_settles fixed Fixed-IsExact 2 9 entries entries-IsEntry (refl, (refl, tt))
