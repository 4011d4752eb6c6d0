-- ===== src/Expenses/Store.antt =====
-- The tables of prisma/schema.prisma that src/modules/expenses writes, the exceptions of its handlers,
-- and the lookups that they share. Titles, messages and emojis are numbers; an amount is the text that
-- its `toString()` gives.
use qisma_be.Prelude.{
  ℕ, Bool, true, false, ◌&&◌, Option, none, some, List, [], ◌∷◌, ◌++◌, ◌==◌, find?,
}
use qisma_be.Prelude.Handler.{Handler, or_err, modify}
use qisma_be.Groups.Store.{Db, Member, GroupError}
use qisma_be.Groups.Rules.{require_active_member}
use qisma_be.Splits.Shares.{SplitType, SplitError}
use qisma_be.Expenses.Cursor.{CursorError}

-- `Expense`
pub record Expense (T : Type 0) : Type 0 where
  pub id : ℕ
  pub group_id : ℕ
  pub created_by : ℕ
  pub paid_by : ℕ
  pub title : ℕ
  pub amount : T
  pub currency : ℕ
  pub split_type : SplitType
  pub category_id : Option ℕ
  pub subcategory_id : Option ℕ
  -- The day of the expense, as the time of its midnight.
  pub date : ℕ
  pub created_at : ℕ
  pub updated_at : ℕ
  pub deleted_at : Option ℕ

-- `ExpenseParticipant`
pub record Participant (T : Type 0) : Type 0 where
  pub expense_id : ℕ
  pub user_id : ℕ
  pub owed_amount : T
  pub paid_amount : T

-- `ExpensePayer`
pub record Payer (T : Type 0) : Type 0 where
  pub expense_id : ℕ
  pub user_id : ℕ
  pub amount : T

-- `ExpenseCategory` and `ExpenseSubcategory`
pub record Category : Type 0 where
  pub id : ℕ
  pub is_active : Bool

pub record Subcategory : Type 0 where
  pub id : ℕ
  pub category_id : ℕ

-- `ExpenseComment`
pub record Comment : Type 0 where
  pub id : ℕ
  pub expense_id : ℕ
  pub user_id : ℕ
  pub message : ℕ
  pub parent_comment_id : Option ℕ
  pub created_at : ℕ
  pub deleted_at : Option ℕ

-- `ExpenseReaction`
pub record Reaction : Type 0 where
  pub id : ℕ
  pub expense_id : ℕ
  pub user_id : ℕ
  pub emoji : ℕ

pub data LogType : Type 0 where
  expense_created expense_updated expense_deleted : LogType
  expense_comment_created expense_reaction_created : LogType

-- `ActivityLog`
pub record Log : Type 0 where
  pub group_id : ℕ
  pub type : LogType
  pub actor_id : ℕ
  pub entity_id : ℕ

-- `GroupBalanceSnapshot`, without its time.
pub record Snapshot (T : Type 0) : Type 0 where
  pub dominant_currency : ℕ
  pub balances : List (ℕ × ℕ × T)
  pub net_by_user_id : List (ℕ × T)

-- The tables, and the snapshots that the cache holds.
pub record World (T : Type 0) : Type 0 where
  pub groups : Db
  pub expenses : List (Expense T)
  pub participants : List (Participant T)
  pub payers : List (Payer T)
  pub categories : List Category
  pub subcategories : List Subcategory
  pub comments : List Comment
  pub reactions : List Reaction
  pub logs : List Log
  pub cache : List (ℕ × Snapshot T)

pub data ExpenseError : Type 0 where
  group : GroupError → ExpenseError
  cursor : CursorError → ExpenseError
  split : SplitError → ExpenseError
  expense_not_found invalid_date parent_not_found nested_too_deep : ExpenseError
  not_a_number stale_version split_required split_invalid users_not_active : ExpenseError
  unknown_category unknown_subcategory subcategory_mismatch : ExpenseError

abbrev pub Action : Type 0 → Type 0 → Type 0
Action T A = Handler (World T) ExpenseError A

abbrev pub is_live : {A : Type 0} → Option A → Bool
is_live none = true
is_live (some _) = false

module _ {T : Type 0} where
  -- `membershipRules.requireActiveMember`, which only reads.
  abbrev pub active_member : ℕ → ℕ → Action T Member
  active_member user group_id w = or_err group (require_active_member user group_id w.groups).0 w

  abbrev pub log : Log → Action T (Unit {0})
  log l = modify λ w. record w { logs = w.logs ++ (l ∷ []) }

  -- The expense of a group, and that expense unless it is deleted.
  abbrev pub find_expense : ℕ → ℕ → World T → Option (Expense T)
  find_expense id group_id w = find? (λ e. e.id == id && e.group_id == group_id) w.expenses

  abbrev pub find_live : ℕ → ℕ → World T → Option (Expense T)
  find_live id group_id w =
      find? (λ e. e.id == id && (e.group_id == group_id && is_live e.deleted_at)) w.expenses
