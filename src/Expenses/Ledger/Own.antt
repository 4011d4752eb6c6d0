-- ===== src/Expenses/Ledger/Own.antt =====
-- The rows of participants that a plan writes are those of its expense.
use mathlib.Core.Path.{subst}
use qisma_be.Prelude.{
  ℕ, ◌≡◌, refl, ◌∙◌, Bool, Option, none, some, List, [], ◌∷◌, ◌++◌, ◌==◌, arith, if◌then◌else◌, All,
  inl, inr, Option-cases, Bool-cases,
}
use qisma_be.Prelude.Result.{Result, ok, bind_ok, ◌>>=◌}
use qisma_be.Splits.Decimal.{DecimalLib}
use qisma_be.Splits.Shares.{Share}
use qisma_be.Splits.Shares.Ways.{compute}
use qisma_be.Expenses.Cursor.{CursorLib}
use qisma_be.Expenses.Store.{
  Expense, Participant, World, ExpenseError, not_a_number, split_required,
}
use qisma_be.Expenses.Payload.{Payload, map_split_payload}
use qisma_be.Expenses.Ledger.Plan.{
  PatchBody, SplitPlan, participant_rows, split_plan, need, from_split, patched_split, needs_split,
  or_else, ensure_users_active, user_ids, stored,
}

some_inj : {A : Type 0} (a b : A) → some a ≡ some b → a ≡ b
some_inj a b h = ground (arith, h)

pub ok_inj : {E A : Type 0} (a b : A) → ◌≡◌ {A = Result E A} (ok a) (ok b) → a ≡ b
ok_inj a b h = ground (arith, h)

need_ok : {A : Type 0} (o : Option A) (e : ExpenseError) (a : A) → need o e ≡ ok a → o ≡ some a
need_ok none e a h = absurd (ground (arith, h))
need_ok (some b) e a h = ground (arith, h)

module _ (dates : CursorLib) (lib : DecimalLib) (id_le : ℕ → ℕ → Bool) where
  open lib use {Decimal, Text, parse, text_zero}

  rows_own :
      (id paid_by : ℕ) (amount : Text) (ps : List (Share Text)) (rows : List (Participant Text))
      → participant_rows dates lib id_le id paid_by amount ps ≡ some rows
      → All (λ p. p.expense_id ≡ id) rows
  rows_own id paid_by amount [] rows h =
      subst (All (λ p. p.expense_id ≡ id)) (some_inj [] rows h) tt
  rows_own id paid_by amount (p ∷ ps) rows h = elim (Option-cases (parse p.owed_amount)) [
    | inl n ↦ absurd (ground (arith, n, h))
    | inr (d, n) ↦ elim (Option-cases (participant_rows dates lib id_le id paid_by amount ps)) [
      | inl m ↦ absurd (ground (arith, n, m, h))
      | inr (more, m) ↦
          subst (All (λ q. q.expense_id ≡ id)) (some_inj _ rows (the_rows d more n m ∙ h))
            (refl, rows_own id paid_by amount ps more m)
    ]
  ]
    where
      the_rows :
          (d : Decimal) (more : List (Participant Text))
          → parse p.owed_amount ≡ some d
          → participant_rows dates lib id_le id paid_by amount ps ≡ some more
          → some (
              record {
                expense_id = id;
                user_id = p.user_id;
                owed_amount = stored dates lib id_le d;
                paid_amount = if p.user_id == paid_by then amount else text_zero;
              }
              ∷ more)
            ≡ participant_rows dates lib id_le id paid_by amount (p ∷ ps)
      the_rows d more n m = ground (arith, n, m)

  pub plan_own :
      (id group_id : ℕ) (payload : Payload Text) (amount : Text) (currency paid_by : ℕ)
      (w : World Text) (s : SplitPlan Text)
      → split_plan dates lib id_le id group_id payload amount currency paid_by w ≡ ok s
      → All (λ p. p.expense_id ≡ id) s.rows
  unfolding split_plan
  plan_own id group_id payload amount currency paid_by w s h =
      let (input, _, h1) = bind_ok (map_split_payload payload) _ s h in
      let (c, _, h2) =
        bind_ok (from_split (compute lib id_le input amount currency (some 2))) _ s h1 in
      let (_, _, h3) =
        bind_ok
          (ensure_users_active w group_id
            (user_ids dates lib id_le c.participant_shares ++ (paid_by ∷ [])))
          _ s h2 in
      let (d, _, h4) = bind_ok (need (parse amount) not_a_number) _ s h3 in
      let (rows, e, h5) =
        bind_ok
          (need
            (participant_rows dates lib id_le id paid_by (stored dates lib id_le d)
              c.participant_shares)
            not_a_number)
          _ s h4 in
      subst (All (λ p. p.expense_id ≡ id)) (ground (arith, h5)) (
        rows_own id paid_by (stored dates lib id_le d) c.participant_shares rows
          (need_ok _ _ rows e))

  pub patched_own :
      (e : Expense Text) (body : PatchBody dates.Text Text) (w : World Text)
      (r : Option (SplitPlan Text)) (s : SplitPlan Text)
      → patched_split dates lib id_le e body w ≡ ok r
      → r ≡ some s
      → All (λ p. p.expense_id ≡ e.id) s.rows
  patched_own e body w r s h q = elim (Bool-cases (needs_split dates lib id_le body)) [
    | inr f ↦ absurd (ground (arith, f, h, q))
    | inl t ↦ again (ground (arith, t, h))
  ]
    where
      again :
          (need body.split split_required >>= (λ payload.
              split_plan dates lib id_le e.id e.group_id payload
                (or_else body.amount e.amount)
                (or_else body.currency e.currency)
                (or_else body.paid_by e.paid_by)
                w
              >>= λ s. ok (some s)))
            ≡ ok r
          → All (λ p. p.expense_id ≡ e.id) s.rows
      again k =
          let (payload, _, k1) = bind_ok (need body.split split_required) _ r k in
          let (s', k2, k3) =
            bind_ok
              (split_plan dates lib id_le e.id e.group_id payload (or_else body.amount e.amount)
                (or_else body.currency e.currency) (or_else body.paid_by e.paid_by) w)
              _ r k1 in
          let same : s' ≡ s = some_inj s' s (ok_inj (some s') r k3 ∙ q) in
          subst (λ (z : SplitPlan Text). All (λ (p : Participant Text). p.expense_id ≡ e.id) z.rows)
            same
            (plan_own e.id e.group_id payload (or_else body.amount e.amount)
              (or_else body.currency e.currency) (or_else body.paid_by e.paid_by) w s' k2)
