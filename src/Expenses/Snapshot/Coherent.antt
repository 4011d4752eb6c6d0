-- ===== src/Expenses/Snapshot/Coherent.antt =====
-- The cache of balances against the tables.
use mathlib.Core.Path.{subst}
use qisma_be.Prelude.{
  ℕ, ◌≡◌, ◌≢◌, refl, sym, ap, ◌∙◌, not, some, List, [], ◌∷◌, map, ◌==◌, arith, keep, All, inl, inr,
  Option-cases, Bool-cases,
}
use qisma_be.Splits.Decimal.{DecimalLib}
use qisma_be.Expenses.Store.{Expense, Snapshot, World}
use qisma_be.Expenses.Snapshot.{
  of_group, entry_of, snapshot_of, snapshot_from, cached, set_cache, ensure_balance_snapshot,
}

-- No two expenses have the same id.
abbrev pub Unique : {T : Type 0} → List (Expense T) → Type 0
Unique [] = Unit
Unique (x ∷ xs) = All (λ y. x.id ≢ y.id) xs × Unique xs

module _ (lib : DecimalLib) where
  open lib use {Text}

  -- Each snapshot in the cache is what the tables give now.
  abbrev pub Coherent : World Text → Type 0
  Coherent w = All (λ c. snapshot_of lib c.0 w ≡ some c.1) w.cache

  -- The same expenses of the group with the same participants give the same snapshot.
  pub same_snapshot :
      (g : ℕ) (w w' : World Text)
      → keep (of_group lib g) w'.expenses ≡ keep (of_group lib g) w.expenses
      → map (entry_of lib w'.participants) (keep (of_group lib g) w.expenses)
        ≡ map (entry_of lib w.participants) (keep (of_group lib g) w.expenses)
      → snapshot_of lib g w' ≡ snapshot_of lib g w
  same_snapshot g w w' p q =
      ap (λ es. snapshot_from lib g es (map (entry_of lib w'.participants) es)) p
      ∙ ap (snapshot_from lib g (keep (of_group lib g) w.expenses)) q

  -- What a request does to the tables and the cache: nothing, or nothing that the
  -- balances rest on; or it changes the expenses of one
  -- group alone and drops its snapshot; or it stores the snapshot that the tables give.
  pub data Effect (w : World Text) : World Text → Type 0 where
    unchanged : Effect w w
    aside :
        (w' : World Text)
        → w'.cache ≡ w.cache
        → w'.expenses ≡ w.expenses
        → w'.participants ≡ w.participants
        → Effect w w'
    wrote :
        (w' : World Text) (group_id : ℕ)
        → w'.cache ≡ keep (λ c. not (c.0 == group_id)) w.cache
        → ((g : ℕ) → g ≢ group_id → snapshot_of lib g w' ≡ snapshot_of lib g w)
        → (Unique w.expenses → Unique w'.expenses)
        → Effect w w'
    stored :
        (group_id : ℕ) (s : Snapshot Text)
        → snapshot_of lib group_id w ≡ some s
        → Effect w (set_cache lib group_id s w)

  keep-others :
      (w w' : World Text) (g0 : ℕ) (cs : List (ℕ × Snapshot Text))
      → ((g : ℕ) → g ≢ g0 → snapshot_of lib g w' ≡ snapshot_of lib g w)
      → All (λ c. snapshot_of lib c.0 w ≡ some c.1) cs
      → All (λ c. snapshot_of lib c.0 w' ≡ some c.1) (keep (λ c. not (c.0 == g0)) cs)
  keep-others w w' g0 [] h a = tt
  keep-others w w' g0 ((g, s) ∷ cs) h (p, a) = elim (Bool-cases (g == g0)) [
    | inl e ↦ rw e (keep-others w w' g0 cs h a)
    | inr e ↦ rw e (h g (ground (arith, e)) ∙ p, keep-others w w' g0 cs h a)
  ]

  All-same :
      (w w' : World Text)
      → w'.expenses ≡ w.expenses
      → w'.participants ≡ w.participants
      → (cs : List (ℕ × Snapshot Text)) → All (λ c. snapshot_of lib c.0 w ≡ some c.1) cs
      → All (λ c. snapshot_of lib c.0 w' ≡ some c.1) cs
  All-same w w' e p [] h = tt
  All-same w w' e p ((g, s) ∷ cs) (q, h) = (
    same_snapshot g w w' (ap (keep (of_group lib g)) e)
          (ap (λ z. map (entry_of lib z) (keep (of_group lib g) w.expenses)) p)
        ∙ q,
    All-same w w' e p cs h,
  )

  pub Effect-Coherent : (w w' : World Text) → Effect w w' → Coherent w → Coherent w'
  unfolding set_cache
  Effect-Coherent w w' unchanged h = h
  Effect-Coherent w w' (aside _ c e p) h =
      subst (All (λ x. snapshot_of lib x.0 w' ≡ some x.1)) (sym c) (All-same w w' e p w.cache h)
  Effect-Coherent w w' (wrote _ g0 c s u) h =
      subst (All (λ x. snapshot_of lib x.0 w' ≡ some x.1)) (sym c) (keep-others w w' g0 w.cache s h)
  Effect-Coherent w w' (stored g s e) h = (e, keep-others w w g w.cache (λ _ _. refl) h)

  pub Effect-Unique : (w w' : World Text) → Effect w w' → Unique w.expenses → Unique w'.expenses
  unfolding set_cache
  Effect-Unique w w' unchanged h = h
  Effect-Unique w w' (aside _ c e p) h = subst Unique (sym e) h
  Effect-Unique w w' (wrote _ g0 c s u) h = u h
  Effect-Unique w w' (stored g s e) h = h

  pub ensure-Effect : (g : ℕ) (w : World Text) → Effect w (ensure_balance_snapshot lib g w).1
  unfolding ensure_balance_snapshot
  ensure-Effect g w = elim (Option-cases (cached lib g w)) [
    | inr (c, e) ↦
        let same : (ensure_balance_snapshot lib g w).1 ≡ w = ground (arith, e) in
        subst (Effect w) (sym same) unchanged
    | inl e ↦ elim (Option-cases (snapshot_of lib g w)) [
      | inl n ↦
          let same : (ensure_balance_snapshot lib g w).1 ≡ w = ground (arith, e, n) in
          subst (Effect w) (sym same) unchanged
      | inr (s, n) ↦
          let same : (ensure_balance_snapshot lib g w).1 ≡ set_cache lib g s w =
            ground (arith, e, n) in
          subst (Effect w) (sym same) (stored g s n)
    ]
  ]
