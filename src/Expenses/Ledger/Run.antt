-- ===== src/Expenses/Ledger/Run.antt =====
-- Runs of requests on the expenses of groups, and the balances that they are shown.
use qisma_be.Prelude.{
  ℕ, ◌≡◌, ◌≢◌, some, List, [], ◌∷◌, All, arith, find?, ◌==◌, Bool-cases, Option-cases, Bool, ap,
  ◌∙◌, inl, inr,
}
use mathlib.Core.Path.{subst}
use qisma_be.Prelude.Result.{ok}
use qisma_be.Splits.Decimal.{DecimalLib}
use qisma_be.Expenses.Cursor.{CursorLib}
use qisma_be.Expenses.Store.{Snapshot, World}
use qisma_be.Expenses.Snapshot.{snapshot_of, cached, ensure_balance_snapshot}
use qisma_be.Expenses.Snapshot.Coherent.{
  Unique, Coherent, Effect, Effect-Coherent, Effect-Unique, ensure-Effect,
}
use qisma_be.Expenses.Ledger.Plan.{Guess, CreateBody, PatchBody}
use qisma_be.Expenses.Ledger.{create_expense, patch_expense, delete_expense, create_reaction}
use qisma_be.Expenses.Ledger.Writes.{create-Effect, patch-Effect, delete-Effect, reaction-Effect}

module _ (dates : CursorLib) (lib : DecimalLib) (id_le : ℕ → ℕ → Bool) where
  open lib use {Text}

  pub data Request : Type 0 where
    create : ℕ → ℕ → Guess → ℕ → ℕ → CreateBody dates.Text Text → Request
    patch : ℕ → ℕ → ℕ → ℕ → PatchBody dates.Text Text → Request
    delete : ℕ → ℕ → ℕ → ℕ → Request
    react : ℕ → ℕ → ℕ → ℕ → ℕ → Request
    show_balances : ℕ → Request

  -- The tables and the cache after a request, whether it succeeds or throws.
  abbrev pub serve : Request → World Text → World Text
  serve (create now fresh guess actor group_id body) w =
      (create_expense dates lib id_le now fresh guess actor group_id body w).1
  serve (patch now actor group_id id body) w =
      (patch_expense dates lib id_le now actor group_id id body w).1
  serve (delete now actor group_id id) w =
      (delete_expense dates lib id_le now actor group_id id w).1
  serve (react fresh actor group_id id emoji) w =
      (create_reaction dates lib id_le fresh actor group_id id emoji w).1
  serve (show_balances group_id) w = (ensure_balance_snapshot lib group_id w).1

  -- A drawn id is not in use.
  abbrev pub IsFresh : Request → World Text → Type 0
  IsFresh (create now fresh guess actor group_id body) w = All (λ x. x.id ≢ fresh) w.expenses
  IsFresh (patch now actor group_id id body) w = Unit
  IsFresh (delete now actor group_id id) w = Unit
  IsFresh (react fresh actor group_id id emoji) w = Unit
  IsFresh (show_balances group_id) w = Unit

  -- Requests one after the other.
  pub data Run : World Text → World Text → Type 0 where
    done : (w : World Text) → Run w w
    next : (r : Request) (w w' : World Text) → IsFresh r w → Run (serve r w) w' → Run w w'

  serve-Effect :
      (r : Request) (w : World Text) → IsFresh r w → Unique w.expenses → Effect lib w (serve r w)
  serve-Effect (create now fresh guess actor group_id body) w f u =
      create-Effect dates lib id_le now fresh guess actor group_id body w f
  serve-Effect (patch now actor group_id id body) w f u =
      patch-Effect dates lib id_le now actor group_id id body w u
  serve-Effect (delete now actor group_id id) w f u =
      delete-Effect dates lib id_le now actor group_id id w u
  serve-Effect (react fresh actor group_id id emoji) w f u =
      reaction-Effect dates lib id_le fresh actor group_id id emoji w
  serve-Effect (show_balances group_id) w f u = ensure-Effect lib group_id w

  -- The ids of the expenses are unique, and the cache holds what the tables give.
  abbrev pub IsKept : World Text → Type 0
  IsKept w = Unique w.expenses × Coherent lib w

  -- The ids of the expenses stay unique through any run of requests, which create, patch, delete and
  -- show, whether they succeed or throw; and each snapshot of balances in the cache stays the one
  -- that the tables give, so that no request that has ended leaves a stale one behind.
  pub Run-IsKept : (w w' : World Text) → Run w w' → IsKept w → IsKept w'
  Run-IsKept w w' (done _) h = h
  Run-IsKept w w' (next r _ _ f run) (u, c) =
      let e = serve-Effect r w f u in
      Run-IsKept (serve r w) w' run
        (Effect-Unique lib w (serve r w) e u, Effect-Coherent lib w (serve r w) e c)

  found_fits :
      (w : World Text) (g : ℕ) (cs : List (ℕ × Snapshot Text)) (c : ℕ × Snapshot Text)
      → All (λ c. snapshot_of lib c.0 w ≡ some c.1) cs
      → find? (λ c. c.0 == g) cs ≡ some c
      → snapshot_of lib g w ≡ some c.1
  found_fits w g [] c h e = absurd (ground (arith, e))
  found_fits w g (x ∷ cs) c (p, h) e = elim (Bool-cases (x.0 == g)) [
    | inl t ↦
        let same : x ≡ c = ground (arith, t, e) in
        let at : x.0 ≡ g = ground (arith, t) in
        subst (λ z. snapshot_of lib g w ≡ some z.1) same
          (subst (λ z. snapshot_of lib z w ≡ some x.1) at p)
    | inr t ↦ found_fits w g cs c h (ground (arith, t, e))
  ]

  -- The balances that are shown at the end of any run, out of the cache or not, are those that the
  -- expenses of the group and their participants give at that time.
  pub shown_fresh :
      (w w' : World Text) (group_id : ℕ) (s : Snapshot Text)
      → Run w w'
      → IsKept w
      → (ensure_balance_snapshot lib group_id w').0 ≡ ok s
      → snapshot_of lib group_id w' ≡ some s
  unfolding ensure_balance_snapshot
  shown_fresh w w' group_id s run k h =
      let (u, c) = Run-IsKept w w' run k in
      elim (Option-cases (cached lib group_id w')) [
        | inr (x, e) ↦
            let same : x.1 ≡ s = ground (arith, e, h) in
            found_fits w' group_id w'.cache x c e ∙ ap some same
        | inl e ↦ elim (Option-cases (snapshot_of lib group_id w')) [
          | inl n ↦ absurd (ground (arith, e, n, h))
          | inr (x, n) ↦ let same : x ≡ s = ground (arith, e, n, h) in n ∙ ap some same
        ]
      ]
