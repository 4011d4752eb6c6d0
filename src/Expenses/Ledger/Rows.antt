-- ===== src/Expenses/Ledger/Rows.antt =====
-- What writes do to the rows: the ids stay unique, and other groups see what they saw.
use mathlib.Core.Path.{subst}
use qisma_be.Prelude.{
  ℕ, ◌≡◌, ◌≢◌, refl, sym, ap, ◌∙◌, Bool, true, false, not, ◌&&◌, some, List, [], ◌∷◌, ◌++◌, map,
  ◌==◌, arith, if◌then◌else◌, keep, find?, All, inl, inr, Bool-cases,
}
use qisma_be.Splits.Decimal.{DecimalLib}
use qisma_be.Expenses.Store.{Expense, Participant}
use qisma_be.Expenses.Snapshot.{of_group, entry_of}
use qisma_be.Expenses.Snapshot.Coherent.{Unique}
use qisma_be.Expenses.Ledger.{update_expense}

module _ {T : Type 0} where
  -- No expense of another group has this id.
  abbrev pub InGroup : ℕ → ℕ → List (Expense T) → Type 0
  InGroup id group_id = All (λ x. x.id ≡ id → x.group_id ≡ group_id)

  All-found :
      (P : Expense T → Type 0) (p : Expense T → Bool) (xs : List (Expense T)) (e : Expense T)
      → All P xs
      → find? p xs ≡ some e
      → P e
  All-found P p [] e a h = absurd (ground arith)
  All-found P p (x ∷ xs) e (q, a) h = elim (Bool-cases (p x)) [
    | inl t ↦ let same : x ≡ e = ground (arith, t, h) in subst P same q
    | inr f ↦ All-found P p xs e a (ground (arith, f, h))
  ]

  pub found-passes :
      (p : Expense T → Bool) (xs : List (Expense T)) (e : Expense T)
      → find? p xs ≡ some e
      → p e ≡ true
  found-passes p [] e h = absurd (ground arith)
  found-passes p (x ∷ xs) e h = elim (Bool-cases (p x)) [
    | inl t ↦ let same : x ≡ e = ground (arith, t, h) in ap p (sym same) ∙ t
    | inr f ↦ found-passes p xs e (ground (arith, f, h))
  ]

  pub found-InGroup :
      (id g : ℕ) (xs : List (Expense T)) (e : Expense T)
      → Unique xs
      → find? (λ x. x.id == id && x.group_id == g) xs ≡ some e
      → InGroup id g xs
  found-InGroup id g [] e u h = tt
  found-InGroup id g (x ∷ xs) e (n, u) h = elim (Bool-cases (x.id == id && x.group_id == g)) [
    | inl t ↦ (λ _. ground (arith, t), others (ground (arith, t)) xs n)
    | inr f ↦
        let rest : find? (λ y. y.id == id && y.group_id == g) xs ≡ some e = ground (arith, f, h) in
        let passes : (e.id == id && e.group_id == g) ≡ true = found-passes _ xs e rest in
        (
          λ s.
              absurd
                (All-found (λ y. x.id ≢ y.id) _ xs e n rest (s ∙ sym (ground (arith, passes)))),
          found-InGroup id g xs e u rest,
        )
  ]
    where
      others : x.id ≡ id → (ys : List (Expense T)) → All (λ y. x.id ≢ y.id) ys → InGroup id g ys
      others k [] a = tt
      others k (y ∷ ys) (q, a) = (λ s. absurd (q (k ∙ sym s)), others k ys a)

  pub update-Unique :
      (id : ℕ) (f : Expense T → Expense T) (xs : List (Expense T))
      → ((x : Expense T) → (f x).id ≡ x.id)
      → Unique xs
      → Unique (update_expense id f xs)
  update-Unique id f [] h u = tt
  update-Unique id f (x ∷ xs) h (n, u) = (others xs n, update-Unique id f xs h u)
    where
      same_id : (b : Bool) (y : Expense T) → (if b then f y else y).id ≡ y.id
      same_id true y = h y
      same_id false y = refl

      others :
          (ys : List (Expense T))
          → All (λ y. x.id ≢ y.id) ys
          → All (λ y. (if x.id == id then f x else x).id ≢ y.id) (update_expense id f ys)
      others [] a = tt
      others (y ∷ ys) (q, a) =
          (λ s. q (sym (same_id (x.id == id) x) ∙ s ∙ same_id (y.id == id) y), others ys a)

  pub snoc-Unique :
      (xs : List (Expense T)) (e : Expense T)
      → All (λ x. x.id ≢ e.id) xs
      → Unique xs
      → Unique (xs ++ (e ∷ []))
  snoc-Unique [] e a u = (tt, tt)
  snoc-Unique (x ∷ xs) e (p, a) (n, u) = (more xs n, snoc-Unique xs e a u)
    where
      more :
          (ys : List (Expense T))
          → All (λ y. x.id ≢ y.id) ys
          → All (λ y. x.id ≢ y.id) (ys ++ (e ∷ []))
      more [] b = (p, tt)
      more (y ∷ ys) (q, b) = (q, more ys b)

module _ (lib : DecimalLib) where
  open lib use {Text}

  -- What another group sees of an update, of a new expense, and of new shares.
  pub keep-update :
      (g g0 id : ℕ) (f : Expense Text → Expense Text) (xs : List (Expense Text))
      → g ≢ g0
      → ((x : Expense Text) → (f x).group_id ≡ x.group_id)
      → InGroup id g0 xs
      → keep (of_group lib g) (update_expense id f xs) ≡ keep (of_group lib g) xs
  keep-update g g0 id f [] n h a = refl
  keep-update g g0 id f (x ∷ xs) n h (p, a) = elim (Bool-cases (x.id == id)) [
    | inl t ↦
        let own : x.group_id ≡ g0 = p (ground (arith, t)) in
        ground (arith, t, own, h x, keep-update g g0 id f xs n h a)
    | inr e ↦ ground (arith, e, keep-update g g0 id f xs n h a)
  ]

  pub keep-snoc :
      (g : ℕ) (xs : List (Expense Text)) (e : Expense Text)
      → e.group_id ≢ g
      → keep (of_group lib g) (xs ++ (e ∷ [])) ≡ keep (of_group lib g) xs
  keep-snoc g [] e n = ground arith
  keep-snoc g (x ∷ xs) e n = ground (arith, keep-snoc g xs e n)

  shares-put :
      (x id : ℕ) (ps rows : List (Participant Text))
      → x ≢ id
      → All (λ p. p.expense_id ≡ id) rows
      → keep (λ p. p.expense_id == x) (keep (λ p. not (p.expense_id == id)) ps ++ rows)
        ≡ keep (λ p. p.expense_id == x) ps
  shares-put x id [] [] n a = refl
  shares-put x id [] (r ∷ rows) n (p, a) = ground (arith, p, shares-put x id [] rows n a)
  shares-put x id (q ∷ ps) rows n a = ground (arith, shares-put x id ps rows n a)

  pub entries-put :
      (g g0 id : ℕ) (ps rows : List (Participant Text)) (xs : List (Expense Text))
      → g ≢ g0
      → All (λ p. p.expense_id ≡ id) rows
      → InGroup id g0 xs
      → map
          (entry_of lib (keep (λ p. not (p.expense_id == id)) ps ++ rows))
          (keep (of_group lib g) xs)
        ≡ map (entry_of lib ps) (keep (of_group lib g) xs)
  entries-put g g0 id ps rows [] n a b = refl
  entries-put g g0 id ps rows (x ∷ xs) n a (p, b) = elim (Bool-cases (of_group lib g x)) [
    | inr f ↦ rw f (entries-put g g0 id ps rows xs n a b)
    | inl t ↦
        let own : x.group_id ≡ g = ground (arith, t) in
        let other : x.id ≢ id = λ s. n (sym own ∙ p s) in
        rw (t, shares-put x.id id ps rows other a)
          (ap (λ z. entry_of lib ps x ∷ z) (entries-put g g0 id ps rows xs n a b))
  ]
