-- ===== src/Expenses/Ledger/Tests.antt =====
-- Writes on inputs, over the decimal numbers of `Fixed`, in units of 10^-8, and the texts of `Sample`.
use qisma_be.Prelude.{◌≡◌, refl, none, some, true, false, [], ◌∷◌, leb, arith}
use qisma_be.Prelude.Int.{ℤ, pos, negsuc, ◌+ℤ◌, ◌-ℤ◌}
use qisma_be.Prelude.Sort.{sort, insert}
use qisma_be.Prelude.Result.{ok, err}
use qisma_be.Groups.Store.{GroupError}
use qisma_be.Splits.Decimal.Fixed.{fixed, to_dp}
use qisma_be.Splits.Shares.{SplitType}
use qisma_be.Splits.Debt.{simplify, classify, settle, after, emit}
use qisma_be.Splits.Balance.{
  compute_group_balances, net_of_all, net_from_expense, take_owed, net_texts,
}
use qisma_be.Groups.Rules.{require_active_member}
use qisma_be.Expenses.Cursor.Sample.{Sample, sample}
use qisma_be.Expenses.Store.{group, Snapshot, Expense, World}
use qisma_be.Expenses.Tests.{one_group}
use qisma_be.Expenses.Snapshot.{snapshot_of, snapshot_from, ensure_balance_snapshot}
use qisma_be.Expenses.Ledger.Plan.{Guess, CreateBody, PatchBody, load}
use qisma_be.Expenses.Ledger.{create_expense, patch_expense, delete_expense, create_reaction}
use qisma_be.Expenses.Ledger.Access.{writes_need_membership, react_again}
use qisma_be.Expenses.Ledger.Run.{
  delete, react, show_balances, serve, Run, done, next, IsKept, Run-IsKept, shown_fresh,
}

-- 100 paid by user 1, of which user 2 owes a half.
abbrev dinner : Expense ℤ
dinner = record {
  id = 10;
  group_id = 7;
  created_by = 1;
  paid_by = 1;
  title = 0;
  amount = pos 10_000_000_000;
  currency = 0;
  split_type = SplitType.equal;
  category_id = none;
  subcategory_id = none;
  date = 0;
  created_at = 500;
  updated_at = 500;
  deleted_at = none;
}

abbrev world : World ℤ
world = record {
  groups = one_group;
  expenses = dinner ∷ [];
  participants =
      record {
        expense_id = 10;
        user_id = 1;
        owed_amount = pos 5_000_000_000;
        paid_amount = pos 10_000_000_000;
      }
      ∷ record {
        expense_id = 10;
        user_id = 2;
        owed_amount = pos 5_000_000_000;
        paid_amount = pos 0;
      }
      ∷ [];
  payers = [];
  categories = [];
  subcategories = [];
  comments = [];
  reactions = [];
  logs = [];
  cache = [];
}

-- The balances are shown, a reaction comes, and the expense is deleted.
abbrev last_world : World ℤ
last_world =
    serve sample fixed leb (delete 900 1 7 10)
      (serve sample fixed leb (react 3 1 7 10 4) (serve sample fixed leb (show_balances 7) world))

run : Run sample fixed leb world last_world
run = next (show_balances 7) world last_world tt (
    next (react 3 1 7 10 4) (serve sample fixed leb (show_balances 7) world) last_world tt (
      next (delete 900 1 7 10)
        (serve sample fixed leb (react 3 1 7 10 4) (serve sample fixed leb (show_balances 7) world))
        last_world tt (done last_world)))

world-IsKept : IsKept sample fixed leb world
world-IsKept = ((tt, tt), tt)

Run-IsKept_example : IsKept sample fixed leb last_world
Run-IsKept_example = Run-IsKept sample fixed leb world last_world run world-IsKept

abbrev shown : Snapshot ℤ
shown = record {
  dominant_currency = 0;
  balances = (2, 1, pos 5_000_000_000) ∷ [];
  net_by_user_id = (1, pos 5_000_000_000) ∷ (2, negsuc 4_999_999_999) ∷ [];
}

shown_balances : (ensure_balance_snapshot fixed 7 world).0 ≡ ok shown
unfolding ensure_balance_snapshot snapshot_from compute_group_balances net_of_all net_from_expense
    take_owed net_texts simplify classify settle after emit sort insert to_dp ◌-ℤ◌ ◌+ℤ◌
shown_balances = refl

shown_fresh_example : snapshot_of fixed 7 world ≡ some shown
shown_fresh_example =
    shown_fresh sample fixed leb world world 7 shown (done world) world-IsKept shown_balances

abbrev body : CreateBody Sample ℤ
body = record {
  title = 0;
  amount = pos 1_000_000_000;
  currency = none;
  date = Sample.blank;
  split = record {
    split_type = SplitType.equal;
    participant_user_ids = some (1 ∷ []);
    amounts_by_user_id = none;
    percentage_by_user_id = none;
    shares_by_user_id = none;
    fixed_amounts_by_user_id = none;
    remainder_user_ids = none;
    all_participant_user_ids = none;
    lines = none;
  };
  paid_by = 1;
}

abbrev change : PatchBody Sample ℤ
change = record {
  title = some 3;
  amount = none;
  currency = none;
  date = none;
  split = none;
  category_id = none;
  subcategory_id = none;
  paid_by = none;
  expected_updated_at = none;
}

abbrev nothing_found : Guess
nothing_found = record { category_id = none; subcategory_id = none }

-- User 5 is in no group.
writes_need_membership_example :
    (x : GroupError) × (create_expense sample fixed leb 900 11 nothing_found 5 7 body world
      ≡ (err (group x), world))
    × (patch_expense sample fixed leb 900 5 7 10 change world ≡ (err (group x), world))
    × (delete_expense sample fixed leb 900 5 7 10 world ≡ (err (group x), world))
    × (create_reaction sample fixed leb 11 5 7 10 4 world ≡ (err (group x), world))
writes_need_membership_example =
    writes_need_membership sample fixed leb 900 11 nothing_found 5 7 10 4 body change world
      (λ m e. absurd (ground arith))

react_again_example :
    let w' = (create_reaction sample fixed leb 3 1 7 10 4 world).1 in
    create_reaction sample fixed leb 8 1 7 10 4 w'
    ≡ (ok (false, record { id = 3; expense_id = 10; user_id = 1; emoji = 4 }), w')
unfolding create_reaction load require_active_member
react_again_example =
    react_again sample fixed leb 3 8 1 7 10 4 world true
      (record { id = 3; expense_id = 10; user_id = 1; emoji = 4 }) refl
