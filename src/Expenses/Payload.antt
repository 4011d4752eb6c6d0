-- ===== src/Expenses/Payload.antt =====
-- src/modules/expenses/utils/map-split-payload.ts: from the body of a request to the input of
-- `ExpenseSplitService.compute`. The scale is always 2.
use qisma_be.Prelude.{ℕ, Option, none, some, List, [], ◌∷◌}
use qisma_be.Prelude.Result.{Result, ok, err, ◌>>=◌}
use qisma_be.Splits.Shares.{SplitType, SplitInput, Line}
use qisma_be.Expenses.Store.{ExpenseError, split_invalid}

-- `ExpenseSplitPayloadDto`
pub record Payload (X : Type 0) : Type 0 where
  pub split_type : SplitType
  pub participant_user_ids : Option (List ℕ)
  pub amounts_by_user_id : Option (List (ℕ × X))
  pub percentage_by_user_id : Option (List (ℕ × X))
  pub shares_by_user_id : Option (List (ℕ × X))
  pub fixed_amounts_by_user_id : Option (List (ℕ × X))
  pub remainder_user_ids : Option (List ℕ)
  pub all_participant_user_ids : Option (List ℕ)
  pub lines : Option (List (Line X))

-- `if (!ids?.length) throw ...`
abbrev pub filled : {A : Type 0} → Option (List A) → Result ExpenseError (List A)
filled none = err split_invalid
filled (some []) = err split_invalid
filled (some (x ∷ xs)) = ok (x ∷ xs)

-- `fixedAmountsByUserId ?? {}`
abbrev or_nothing : {A : Type 0} → Option (List A) → List A
or_nothing none = []
or_nothing (some xs) = xs

-- `mapSplitPayloadToComputation`
unfoldable pub map_split_payload : {X : Type 0} → Payload X → Result ExpenseError (SplitInput X)
map_split_payload p = elim p.split_type [
  | SplitType.equal ↦ (do ids ← filled p.participant_user_ids; ok (SplitInput.equal ids))
  | SplitType.exact ↦ (do amounts ← filled p.amounts_by_user_id; ok (SplitInput.exact amounts))
  | SplitType.percentage ↦ (do pct ← filled p.percentage_by_user_id; ok (SplitInput.percentage pct))
  | SplitType.shares ↦ (do sh ← filled p.shares_by_user_id; ok (SplitInput.shares sh))
  | SplitType.adjustment ↦ (do
    rem ← filled p.remainder_user_ids
    ok (SplitInput.adjustment (or_nothing p.fixed_amounts_by_user_id) rem))
  | SplitType.itemized ↦ (do
    all ← filled p.all_participant_user_ids
    lines ← filled p.lines
    ok (SplitInput.itemized all lines))
]
