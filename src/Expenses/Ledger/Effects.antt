-- ===== src/Expenses/Ledger/Effects.antt =====
-- What an update of a row, and what new shares do to the tables and the cache of balances.
use mathlib.Core.Path.{subst}
use qisma_be.Prelude.{
  ℕ, ◌≡◌, sym, ap, ◌∙◌, true, not, ◌&&◌, some, List, ◌++◌, map, ◌==◌, arith, keep, All, inl, inr,
  Option-cases,
}
use qisma_be.Prelude.Result.{Result, ok, Result-cases}
use qisma_be.Groups.Rules.{require_active_member}
use qisma_be.Splits.Decimal.{DecimalLib}
use qisma_be.Expenses.Store.{Expense, Participant, World, ExpenseError, find_expense}
use qisma_be.Expenses.Snapshot.{of_group, entry_of}
use qisma_be.Expenses.Snapshot.Coherent.{Unique, Effect, unchanged, wrote, same_snapshot}
use qisma_be.Expenses.Ledger.Plan.{load}
use qisma_be.Expenses.Ledger.Rows.{
  InGroup, found-InGroup, found-passes, update-Unique, keep-update, entries-put,
}
use qisma_be.Expenses.Ledger.{decide, update_expense}

-- What `load` finds is the only expense with its id, and in the group.
pub load_found :
    {T : Type 0} (actor g id : ℕ) (w : World T) (e : Expense T)
    → Unique w.expenses
    → load w actor g id ≡ ok e
    → InGroup id g w.expenses × (e.id ≡ id) × (e.group_id ≡ g)
unfolding load
load_found actor g id w e u h = elim (Result-cases (require_active_member actor g w.groups).0) [
  | inr (x, m) ↦ absurd (ground (arith, m, h))
  | inl (x, m) ↦ elim (Option-cases (find_expense id g w)) [
    | inl n ↦ absurd (ground (arith, m, n, h))
    | inr (y, n) ↦
        let same : y ≡ e = ground (arith, m, n, h) in
        let found : find_expense id g w ≡ some e = n ∙ ap some same in
        let passes : (e.id == id && e.group_id == g) ≡ true =
          found-passes (λ y. y.id == id && y.group_id == g) w.expenses e found in
        (found-InGroup id g w.expenses e u found, ground (arith, passes), ground (arith, passes))
  ]
]

module _ (lib : DecimalLib) where
  open lib use {Text}

  pub decide-Effect :
      {P A : Type 0} (plan : World Text → Result ExpenseError P)
      (write : P → World Text → A × World Text) (w : World Text)
      → ((p : P) → plan w ≡ ok p → Effect lib w (write p w).1)
      → Effect lib w (decide plan write w).1
  decide-Effect plan write w h = elim (Result-cases (plan w)) [
    | inl (p, e) ↦
        let same : (decide plan write w).1 ≡ (write p w).1 = ground (arith, e) in
        subst (Effect lib w) (sym same) (h p e)
    | inr (x, e) ↦
        let same : (decide plan write w).1 ≡ w = ground (arith, e) in
        subst (Effect lib w) (sym same) unchanged
  ]

  -- An update of an expense that leaves its id, its group and the participants alone.
  pub update-Effect :
      (w w' : World Text) (id g0 : ℕ) (f : Expense Text → Expense Text)
      → InGroup id g0 w.expenses
      → ((x : Expense Text) → (f x).id ≡ x.id)
      → ((x : Expense Text) → (f x).group_id ≡ x.group_id)
      → w'.expenses ≡ update_expense id f w.expenses
      → w'.participants ≡ w.participants
      → w'.cache ≡ keep (λ c. not (c.0 == g0)) w.cache
      → Effect lib w w'
  update-Effect w w' id g0 f i hi hg e p c =
      wrote w' g0 c
        (λ g n.
          same_snapshot lib g w w'
            (ap (keep (of_group lib g)) e ∙ keep-update lib g g0 id f w.expenses n hg i)
            (ap (λ z. map (entry_of lib z) (keep (of_group lib g) w.expenses)) p))
        (λ u. subst Unique (sym e) (update-Unique id f w.expenses hi u))

  -- The same with new participants for the expense.
  pub split-Effect :
      (w w' : World Text) (id g0 : ℕ) (f : Expense Text → Expense Text)
      (rows : List (Participant Text))
      → InGroup id g0 w.expenses
      → All (λ p. p.expense_id ≡ id) rows
      → ((x : Expense Text) → (f x).id ≡ x.id)
      → ((x : Expense Text) → (f x).group_id ≡ x.group_id)
      → w'.expenses ≡ update_expense id f w.expenses
      → w'.participants ≡ keep (λ p. not (p.expense_id == id)) w.participants ++ rows
      → w'.cache ≡ keep (λ c. not (c.0 == g0)) w.cache
      → Effect lib w w'
  split-Effect w w' id g0 f rows i a hi hg e p c =
      wrote w' g0 c
        (λ g n.
          same_snapshot lib g w w'
            (ap (keep (of_group lib g)) e ∙ keep-update lib g g0 id f w.expenses n hg i)
            (ap (λ z. map (entry_of lib z) (keep (of_group lib g) w.expenses)) p
              ∙ entries-put lib g g0 id w.participants rows w.expenses n a i))
        (λ u. subst Unique (sym e) (update-Unique id f w.expenses hi u))
