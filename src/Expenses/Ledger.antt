-- ===== src/Expenses/Ledger.antt =====
-- src/modules/expenses/expenses.service.ts: `createExpense`, `patchExpense`, `deleteExpense` and
-- `createExpenseReaction`. Of a row of `Expense` the columns are left out that no modelled code
-- reads (notes, place, facets and the like); so are the tags, the counters of the classifier and
-- the cache of the analytics.
pub mod Plan
pub mod Rows
pub mod Effects
pub mod Own
pub mod Writes
pub mod Run
pub mod Access
mod Tests
use qisma_be.Prelude.{
  ℕ, Bool, true, false, not, ◌&&◌, Option, none, some, List, [], ◌∷◌, ◌++◌, ◌==◌, if◌then◌else◌,
  find?, keep,
}
use qisma_be.Prelude.Result.{Result, ok, err}
use qisma_be.Splits.Decimal.{DecimalLib}
use qisma_be.Expenses.Cursor.{CursorLib}
use qisma_be.Expenses.Store.{
  Expense, Participant, Payer, Reaction, Log, World, ExpenseError, expense_created, expense_updated,
  expense_deleted, expense_reaction_created, Action,
}
use qisma_be.Expenses.Ledger.Plan.{
  or_else, or_same, Guess, CreateBody, PatchBody, SplitPlan, load, create_plan, PatchPlan,
  patch_plan,
}
use qisma_be.Expenses.Snapshot.{invalidate}

-- `prisma.expense.update({ where: { id } })`
abbrev pub update_expense :
    {T : Type 0} → ℕ → (Expense T → Expense T) → List (Expense T) → List (Expense T)
update_expense id f [] = []
update_expense id f (e ∷ es) = (if e.id == id then f e else e) ∷ update_expense id f es

-- A handler that reads and checks, and then writes.
abbrev pub decide :
    {T P A : Type 0} → (World T → Result ExpenseError P) → (P → World T → A × World T) → Action T A
decide plan write w = elim (plan w) [
  | ok p ↦ (ok (write p w).0, (write p w).1)
  | err e ↦ (err e, w)
]

module _ (dates : CursorLib) (lib : DecimalLib) (id_le : ℕ → ℕ → Bool) where
  open lib use {Text}

  -- The participants and the payer of an expense, in place of those that it had.
  abbrev pub put_shares : ℕ → ℕ → Text → List (Participant Text) → World Text → World Text
  put_shares id paid_by amount rows w = record w {
    participants = keep (λ p. not (p.expense_id == id)) w.participants ++ rows;
    payers =
        keep (λ p. not (p.expense_id == id)) w.payers
        ++ (record { expense_id = id; user_id = paid_by; amount = amount } ∷ []);
  }

  -- What each of the handlers ends with: the line of the log, and the cache of the group.
  abbrev pub finish : Log → World Text → World Text
  finish l w = invalidate lib l.group_id (record w { logs = w.logs ++ (l ∷ []) })

  -- The new row of `createExpense`.
  abbrev pub fresh_expense : ℕ → ℕ → Guess → ℕ → ℕ → ℕ → ℕ → SplitPlan Text → Expense Text
  fresh_expense now fresh guess actor group_id title date s = record {
    id = fresh;
    group_id = group_id;
    created_by = actor;
    paid_by = s.paid_by;
    title = title;
    amount = s.amount;
    currency = s.currency;
    split_type = s.split_type;
    category_id = guess.category_id;
    subcategory_id = guess.subcategory_id;
    date = date;
    created_at = now;
    updated_at = now;
    deleted_at = none;
  }

  abbrev pub commit_create :
      ℕ
      → ℕ
      → Guess
      → ℕ
      → ℕ
      → CreateBody dates.Text Text
      → ℕ × SplitPlan Text
      → World Text
      → Expense Text × World Text
  commit_create now fresh guess actor group_id body (date, s) w =
      let e = fresh_expense now fresh guess actor group_id body.title date s in
      (
        e,
        finish
            (record {
              group_id = group_id;
              type = expense_created;
              actor_id = actor;
              entity_id = fresh;
            })
            (put_shares fresh s.paid_by s.amount s.rows
              (record w { expenses = w.expenses ++ (e ∷ []) })),
      )

  -- `createExpense`; `guess` is what the classifier finds.
  unfoldable pub create_expense :
      ℕ → ℕ → Guess → ℕ → ℕ → CreateBody dates.Text Text → Action Text (Expense Text)
  create_expense now fresh guess actor group_id body =
      decide (create_plan dates lib id_le fresh guess actor group_id body)
        (commit_create now fresh guess actor group_id body)

  -- The row of `patchExpense`, but for the split.
  abbrev pub patched :
      ℕ → PatchBody dates.Text Text → Expense Text → ℕ → Expense Text → Expense Text
  patched now body e date x = record x {
    title = or_else body.title e.title;
    category_id = or_same body.category_id e.category_id;
    subcategory_id = or_same body.subcategory_id e.subcategory_id;
    date = date;
    updated_at = now;
  }

  abbrev pub with_split : SplitPlan Text → Expense Text → Expense Text
  with_split s x = record x {
    amount = s.amount;
    currency = s.currency;
    paid_by = s.paid_by;
    split_type = s.split_type;
  }

  -- The writes of `patchExpense`.
  abbrev pub write_patch :
      ℕ
      → PatchBody dates.Text Text
      → Expense Text
      → ℕ
      → Option (SplitPlan Text)
      → World Text
      → World Text
  write_patch now body e date none w = record w {
    expenses = update_expense e.id (λ x. patched now body e date x) w.expenses;
  }
  write_patch now body e date (some s) w = put_shares e.id s.paid_by s.amount s.rows (record w {
    expenses = update_expense e.id (λ x. with_split s (patched now body e date x)) w.expenses;
  })

  abbrev pub commit_patch :
      ℕ
      → ℕ
      → ℕ
      → PatchBody dates.Text Text
      → PatchPlan dates lib id_le
      → World Text
      → ℕ × World Text
  commit_patch now actor id body p w = (
    id,
    finish
        (record {
          group_id = p.row.group_id;
          type = expense_updated;
          actor_id = actor;
          entity_id = id;
        })
        (write_patch now body p.row p.date p.split w),
  )

  -- `patchExpense`
  unfoldable pub patch_expense : ℕ → ℕ → ℕ → ℕ → PatchBody dates.Text Text → Action Text ℕ
  patch_expense now actor group_id id body =
      decide (patch_plan dates lib id_le actor group_id id body) (commit_patch now actor id body)

  abbrev pub commit_delete : ℕ → ℕ → ℕ → Expense Text → World Text → ℕ × World Text
  commit_delete now actor id e w = (
    id,
    finish
        (record { group_id = e.group_id; type = expense_deleted; actor_id = actor; entity_id = id })
        (record w {
          expenses =
              update_expense id (λ x. record x { deleted_at = some now; updated_at = now })
                w.expenses;
        }),
  )

  -- `deleteExpense`
  unfoldable pub delete_expense : ℕ → ℕ → ℕ → ℕ → Action Text ℕ
  delete_expense now actor group_id id =
      decide (λ w. load w actor group_id id) (commit_delete now actor id)

  abbrev pub is_reaction : ℕ → ℕ → ℕ → Reaction → Bool
  is_reaction id user emoji r = r.expense_id == id && r.user_id == user && r.emoji == emoji

  abbrev pub fresh_reaction : ℕ → ℕ → ℕ → ℕ → Reaction
  fresh_reaction fresh id user emoji = record {
    id = fresh;
    expense_id = id;
    user_id = user;
    emoji = emoji;
  }

  abbrev pub commit_reaction :
      ℕ → ℕ → ℕ → ℕ → Expense Text → World Text → (Bool × Reaction) × World Text
  commit_reaction fresh actor id emoji e w = elim (find? (is_reaction id actor emoji) w.reactions) [
    | some r ↦ ((false, r), w)
    | none ↦ (
      (true, fresh_reaction fresh id actor emoji),
      record w {
        reactions = w.reactions ++ (fresh_reaction fresh id actor emoji ∷ []);
        logs =
            w.logs
            ++ (record {
              group_id = e.group_id;
              type = expense_reaction_created;
              actor_id = actor;
              entity_id = id;
            }
                ∷ []);
      },
    )
  ]

  -- `createExpenseReaction`: whether it is new, and the reaction.
  unfoldable pub create_reaction : ℕ → ℕ → ℕ → ℕ → ℕ → Action Text (Bool × Reaction)
  create_reaction fresh actor group_id id emoji =
      decide (λ w. load w actor group_id id) (commit_reaction fresh actor id emoji)
