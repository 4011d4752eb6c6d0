-- ===== src/Expenses/Ledger/Plan.antt =====
-- src/modules/expenses/expenses.service.ts: what `createExpense`, `patchExpense`, `deleteExpense` and
-- `createExpenseReaction` read and check before they write. An amount is stored with four places.
use qisma_be.Prelude.{
  ℕ, Bool, true, false, not, ◌&&◌, ◌||◌, Option, none, some, List, [], ◌∷◌, ◌++◌, map, ◌==◌,
  if◌then◌else◌, find?, keep, length,
}
use qisma_be.Prelude.Result.{Result, ok, err, ◌>>=◌, ◌>>◌, throw_if}
use qisma_be.Groups.Store.{GroupError, is_active}
use qisma_be.Groups.Rules.{require_active_member}
use qisma_be.Splits.Decimal.{DecimalLib}
use qisma_be.Splits.Shares.{Share, SplitError, SplitType, unique, contains}
use qisma_be.Splits.Shares.Ways.{compute}
use qisma_be.Expenses.Cursor.{CursorLib}
use qisma_be.Expenses.Feed.{given}
use qisma_be.Expenses.Store.{
  Expense, Participant, World, ExpenseError, group, split, expense_not_found, invalid_date,
  not_a_number, stale_version, split_required, users_not_active, unknown_category,
  unknown_subcategory, subcategory_mismatch, is_live, find_expense,
}
use qisma_be.Expenses.Payload.{Payload, map_split_payload}
use qisma_be.Expenses.Snapshot.{inr_code}

abbrev pub or_else : {A : Type 0} → Option A → A → A
or_else none a = a
or_else (some b) a = b

abbrev pub or_same : {A : Type 0} → Option A → Option A → Option A
or_same none b = b
or_same (some a) b = some a

-- `if (!x) throw e`
abbrev pub need : {A : Type 0} → Option A → ExpenseError → Result ExpenseError A
need none e = err e
need (some a) e = ok a

abbrev pub from_group : {A : Type 0} → Result GroupError A → Result ExpenseError A
from_group (ok a) = ok a
from_group (err e) = err (group e)

abbrev pub from_split : {A : Type 0} → Result SplitError A → Result ExpenseError A
from_split (ok a) = ok a
from_split (err e) = err (split e)

-- What the classifier found for the title.
pub record Guess : Type 0 where
  pub category_id : Option ℕ
  pub subcategory_id : Option ℕ

abbrev pub belongs : Option ℕ → ℕ → Bool
belongs none own = true
belongs (some c) own = own == c

-- `CreateExpenseBodyDto` and `PatchExpenseBodyDto`; `X` are the texts of dates, `Y` those of amounts.
pub record CreateBody (X Y : Type 0) : Type 0 where
  pub title : ℕ
  pub amount : Y
  pub currency : Option ℕ
  pub date : X
  pub split : Payload Y
  pub paid_by : ℕ

pub record PatchBody (X Y : Type 0) : Type 0 where
  pub title : Option ℕ
  pub amount : Option Y
  pub currency : Option ℕ
  pub date : Option X
  pub split : Option (Payload Y)
  pub category_id : Option ℕ
  pub subcategory_id : Option ℕ
  pub paid_by : Option ℕ
  pub expected_updated_at : Option X

module _ {T : Type 0} (w : World T) where
  -- `ensureUsersActiveInGroup`
  abbrev pub ensure_users_active : ℕ → List ℕ → Result ExpenseError (Unit {0})
  ensure_users_active group_id ids =
      let rows =
        keep (λ m. m.group_id == group_id && contains m.user_id (unique ids) && is_active m.status)
          w.groups.members in
      throw_if (not (length rows == length (unique ids))) users_not_active

  -- The category of the guess is there and active, and the subcategory is one of it.
  abbrev pub check_category : Option ℕ → Result ExpenseError (Unit {0})
  check_category none = ok tt
  check_category (some c) = do
    _ ← need (find? (λ x. x.id == c && x.is_active) w.categories) unknown_category
    ok tt

  abbrev pub check_subcategory : Option ℕ → Option ℕ → Result ExpenseError (Unit {0})
  check_subcategory category none = ok tt
  check_subcategory category (some s) = do
    sub ← need (find? (λ x. x.id == s) w.subcategories) unknown_subcategory
    throw_if (not (belongs category sub.category_id)) subcategory_mismatch

  -- The caller is an active member, and the expense one of the group that is not deleted.
  unfoldable pub load : ℕ → ℕ → ℕ → Result ExpenseError (Expense T)
  load actor group_id id = do
    _ ← from_group (require_active_member actor group_id w.groups).0
    e ← need (find_expense id group_id w) expense_not_found
    throw_if (not (is_live e.deleted_at)) expense_not_found
    ok e

-- What is to be written for the split of an expense.
pub record SplitPlan (Y : Type 0) : Type 0 where
  pub amount : Y
  pub currency : ℕ
  pub paid_by : ℕ
  pub split_type : SplitType
  pub rows : List (Participant Y)

module _ (dates : CursorLib) (lib : DecimalLib) (id_le : ℕ → ℕ → Bool) where
  open lib use {Decimal, Text, parse, to_string, to_dp, text_zero}

  -- What a column of four places holds of a number.
  abbrev pub stored : Decimal → Text
  stored d = to_string (to_dp d 4)

  -- The rows of the participants; `none` is a share that is no number, which the database refuses.
  abbrev pub participant_rows : ℕ → ℕ → Text → List (Share Text) → Option (List (Participant Text))
  participant_rows id paid_by amount [] = some []
  participant_rows id paid_by amount (p ∷ ps) =
      let rest = participant_rows id paid_by amount ps in
      elim (parse p.owed_amount) [
        | none ↦ none
        | some d ↦ elim rest [
          | none ↦ none
          | some rows ↦ some (
              record {
                expense_id = id;
                user_id = p.user_id;
                owed_amount = stored d;
                paid_amount = if p.user_id == paid_by then amount else text_zero;
              }
              ∷ rows)
        ]
      ]

  -- `parseYmd`
  abbrev pub parse_ymd : dates.Text → Result ExpenseError ℕ
  parse_ymd t = need (dates.midnight t) invalid_date

  abbrev pub user_ids : List (Share Text) → List ℕ
  user_ids ps = map (λ p. p.user_id) ps

  -- The split of an amount among active members of the group.
  unfoldable pub split_plan :
      ℕ → ℕ → Payload Text → Text → ℕ → ℕ → World Text → Result ExpenseError (SplitPlan Text)
  split_plan id group_id payload amount currency paid_by w = do
    input ← map_split_payload payload
    computed ← from_split (compute lib id_le input amount currency (some 2))
    ensure_users_active w group_id (user_ids computed.participant_shares ++ (paid_by ∷ []))
    d ← need (parse amount) not_a_number
    rows ← need (participant_rows id paid_by (stored d) computed.participant_shares) not_a_number
    ok (record {
      amount = stored d;
      currency = currency;
      paid_by = paid_by;
      split_type = computed.split_type;
      rows = rows;
    })

  -- `createExpense` up to its transaction: the date of the expense, and its split.
  unfoldable pub create_plan :
      ℕ
      → Guess
      → ℕ
      → ℕ
      → CreateBody dates.Text Text
      → World Text
      → Result ExpenseError (ℕ × SplitPlan Text)
  unfolding split_plan
  create_plan fresh guess actor group_id body w = do
    _ ← from_group (require_active_member actor group_id w.groups).0
    date ← parse_ymd body.date
    s ←
        split_plan fresh group_id body.split body.amount (or_else body.currency inr_code)
          body.paid_by w
    check_category w guess.category_id
    check_subcategory w guess.category_id guess.subcategory_id
    ok (date, s)

  -- The version that the caller has seen, if it names one, is that of the row.
  abbrev pub check_version : Option dates.Text → ℕ → Result ExpenseError (Unit {0})
  check_version none own = ok tt
  check_version (some t) own = do
    at ← need (dates.date t) stale_version
    throw_if (not (at == own)) stale_version

  abbrev pub patched_date : Option dates.Text → ℕ → Result ExpenseError ℕ
  patched_date none own = ok own
  patched_date (some t) own = parse_ymd t

  abbrev pub is_given : {A : Type 0} → Option A → Bool
  is_given none = false
  is_given (some _) = true

  -- `needsSplit`
  abbrev pub needs_split : PatchBody dates.Text Text → Bool
  needs_split body =
      is_given body.amount || is_given body.split || is_given body.paid_by || is_given body.currency

  -- The split that a patch asks for, if it changes what is split.
  abbrev pub patched_split :
      Expense Text
      → PatchBody dates.Text Text
      → World Text
      → Result ExpenseError (Option (SplitPlan Text))
  patched_split e body w =
      if needs_split body
      then (do
        payload ← need body.split split_required
        s ←
            split_plan e.id e.group_id payload (or_else body.amount e.amount)
              (or_else body.currency e.currency) (or_else body.paid_by e.paid_by) w
        ok (some s))
      else ok none

  -- What `patchExpense` is to write.
  pub record PatchPlan : Type 0 where
    pub row : Expense Text
    pub split : Option (SplitPlan Text)
    pub date : ℕ

  -- `patchExpense` up to its writes.
  unfoldable pub patch_plan :
      ℕ → ℕ → ℕ → PatchBody dates.Text Text → World Text → Result ExpenseError PatchPlan
  unfolding load split_plan
  patch_plan actor group_id id body w = do
    e ← load w actor group_id id
    check_version (given dates body.expected_updated_at) e.updated_at
    s ← patched_split e body w
    date ← patched_date (given dates body.date) e.date
    ok (record { row = e; split = s; date = date })
