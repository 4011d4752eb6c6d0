-- ===== src/Expenses/Ledger/Writes.antt =====
-- The handlers that write expenses: what each does to the tables and the cache of balances.
use mathlib.Core.Path.{subst}
use qisma_be.Prelude.{
  ℕ, ◌≡◌, ◌≢◌, refl, sym, Bool, Option, none, some, List, [], ◌∷◌, arith, find?, All, inl, inr,
  Option-cases,
}
use qisma_be.Prelude.Result.{bind_ok}
use qisma_be.Groups.Rules.{require_active_member}
use qisma_be.Splits.Decimal.{DecimalLib}
use qisma_be.Expenses.Cursor.{CursorLib}
use qisma_be.Expenses.Feed.{given}
use qisma_be.Expenses.Store.{Expense, World}
use qisma_be.Expenses.Snapshot.{inr_code, invalidate}
use qisma_be.Expenses.Snapshot.Coherent.{Unique, Effect, aside, wrote, same_snapshot}
use qisma_be.Expenses.Ledger.Plan.{
  Guess, CreateBody, PatchBody, SplitPlan, load, split_plan, create_plan, patch_plan, from_group,
  parse_ymd, check_category, check_subcategory, check_version, patched_date, patched_split, or_else,
}
use qisma_be.Expenses.Ledger.Effects.{load_found, decide-Effect, update-Effect, split-Effect}
use qisma_be.Expenses.Ledger.Own.{ok_inj, plan_own, patched_own}
use qisma_be.Expenses.Ledger.Rows.{InGroup, snoc-Unique, keep-snoc, entries-put}
use qisma_be.Expenses.Ledger.{
  create_expense, patch_expense, delete_expense, create_reaction, patched, with_split,
  fresh_expense, commit_create, commit_patch, commit_delete, commit_reaction, is_reaction,
}

module _ (dates : CursorLib) (lib : DecimalLib) (id_le : ℕ → ℕ → Bool) where
  open lib use {Decimal, Text, parse, text_zero}

  pub delete-Effect :
      (now actor group_id id : ℕ) (w : World Text)
      → Unique w.expenses
      → Effect lib w (delete_expense dates lib id_le now actor group_id id w).1
  unfolding delete_expense invalidate
  delete-Effect now actor group_id id w u =
      decide-Effect lib (λ w. load w actor group_id id) (commit_delete dates lib id_le now actor id)
        w
        λ e h.
          let (i, same, g) = load_found actor group_id id w e u h in
          update-Effect lib w (commit_delete dates lib id_le now actor id e w).1 id e.group_id
            (λ x. record x { deleted_at = some now; updated_at = now })
            (subst (λ z. InGroup id z w.expenses) (sym g) i) (λ x. refl) (λ x. refl) refl refl refl

  pub reaction-Effect :
      (fresh actor group_id id emoji : ℕ) (w : World Text)
      → Effect lib w (create_reaction dates lib id_le fresh actor group_id id emoji w).1
  unfolding create_reaction
  reaction-Effect fresh actor group_id id emoji w =
      decide-Effect lib (λ w. load w actor group_id id)
        (commit_reaction dates lib id_le fresh actor id emoji) w
        λ e h.
          elim (Option-cases (find? (is_reaction dates lib id_le id actor emoji) w.reactions)) [
            | inl n ↦
                aside (commit_reaction dates lib id_le fresh actor id emoji e w).1
                  (ground (arith, n)) (ground (arith, n)) (ground (arith, n))
            | inr (r, n) ↦
                aside (commit_reaction dates lib id_le fresh actor id emoji e w).1
                  (ground (arith, n)) (ground (arith, n)) (ground (arith, n))
          ]

  write-Effect :
      (now actor id : ℕ) (body : PatchBody dates.Text Text) (e : Expense Text) (date : ℕ)
      (split : Option (SplitPlan Text)) (w : World Text)
      → InGroup e.id e.group_id w.expenses
      → ((s : SplitPlan Text) → split ≡ some s → All (λ p. p.expense_id ≡ e.id) s.rows)
      → Effect lib w
          (commit_patch dates lib id_le now actor id body
            (record { row = e; split = split; date = date })
            w).1
  unfolding invalidate
  write-Effect now actor id body e date none w i own =
      update-Effect lib w
        (commit_patch dates lib id_le now actor id body
          (record { row = e; split = none; date = date }) w).1
        e.id e.group_id (λ x. patched dates lib id_le now body e date x) i (λ x. refl) (λ x. refl)
        refl refl refl
  write-Effect now actor id body e date (some s) w i own =
      split-Effect lib w
        (commit_patch dates lib id_le now actor id body
          (record { row = e; split = some s; date = date }) w).1
        e.id e.group_id
        (λ x. with_split dates lib id_le s (patched dates lib id_le now body e date x)) s.rows i
        (own s refl) (λ x. refl) (λ x. refl) refl refl refl

  pub patch-Effect :
      (now actor group_id id : ℕ) (body : PatchBody dates.Text Text) (w : World Text)
      → Unique w.expenses
      → Effect lib w (patch_expense dates lib id_le now actor group_id id body w).1
  unfolding patch_expense patch_plan
  patch-Effect now actor group_id id body w u =
      decide-Effect lib (patch_plan dates lib id_le actor group_id id body)
        (commit_patch dates lib id_le now actor id body) w
        λ p h.
          let (e, l, h1) = bind_ok (load w actor group_id id) _ p h in
          let (_, _, h2) =
            bind_ok
              (check_version dates lib id_le (given dates body.expected_updated_at) e.updated_at) _
              p h1 in
          let (r, k, h3) = bind_ok (patched_split dates lib id_le e body w) _ p h2 in
          let (date, _, h4) =
            bind_ok (patched_date dates lib id_le (given dates body.date) e.date) _ p h3 in
          let (i, same, g) = load_found actor group_id id w e u l in
          subst (λ z. Effect lib w (commit_patch dates lib id_le now actor id body z w).1)
            (ok_inj _ p h4)
            (write-Effect now actor id body e date r w
              (subst (λ z. InGroup z e.group_id w.expenses) (sym same)
                (subst (λ z. InGroup id z w.expenses) (sym g) i))
              (λ s q. patched_own dates lib id_le e body w r s k q))

  pub create-Effect :
      (now fresh : ℕ) (guess : Guess) (actor group_id : ℕ) (body : CreateBody dates.Text Text)
      (w : World Text)
      → All (λ x. x.id ≢ fresh) w.expenses
      → Effect lib w (create_expense dates lib id_le now fresh guess actor group_id body w).1
  unfolding create_expense create_plan invalidate
  create-Effect now fresh guess actor group_id body w f =
      decide-Effect lib (create_plan dates lib id_le fresh guess actor group_id body)
        (commit_create dates lib id_le now fresh guess actor group_id body) w
        λ p h.
          let (_, _, h1) =
            bind_ok (from_group (require_active_member actor group_id w.groups).0) _ p h in
          let (date, _, h2) = bind_ok (parse_ymd dates lib id_le body.date) _ p h1 in
          let (s, k, h3) =
            bind_ok
              (split_plan dates lib id_le fresh group_id body.split body.amount
                (or_else body.currency inr_code) body.paid_by w)
              _ p h2 in
          let (_, _, h4) = bind_ok (check_category w guess.category_id) _ p h3 in
          let (_, _, h5) =
            bind_ok (check_subcategory w guess.category_id guess.subcategory_id) _ p h4 in
          subst
            (λ z.
              Effect lib w
                (commit_create dates lib id_le now fresh guess actor group_id body z w).1)
            (ok_inj _ p h5)
            (fresh-Effect date s (
              plan_own dates lib id_le fresh group_id body.split body.amount
                (or_else body.currency inr_code) body.paid_by w s k))
    where
      out : ℕ → SplitPlan Text → World Text
      out date s = (commit_create dates lib id_le now fresh guess actor group_id body (date, s) w).1

      vacuous : (xs : List (Expense Text)) → All (λ x. x.id ≢ fresh) xs → InGroup fresh group_id xs
      vacuous [] a = tt
      vacuous (x ∷ xs) (p, a) = (λ q. absurd (p q), vacuous xs a)

      fresh-Effect :
          (date : ℕ) (s : SplitPlan Text)
          → All (λ p. p.expense_id ≡ fresh) s.rows
          → Effect lib w (out date s)
      fresh-Effect date s a =
          wrote (out date s) group_id refl
            (λ g n.
              same_snapshot lib g w (out date s)
                (keep-snoc lib g w.expenses
                  (fresh_expense dates lib id_le now fresh guess actor group_id body.title date s)
                  (λ q. n (sym q)))
                (entries-put lib g group_id fresh w.participants s.rows w.expenses n a
                  (vacuous w.expenses f)))
            (λ u.
              snoc-Unique w.expenses
                (fresh_expense dates lib id_le now fresh guess actor group_id body.title date s) f
                u)
