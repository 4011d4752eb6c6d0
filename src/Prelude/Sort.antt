-- ===== src/Prelude/Sort.antt =====
-- `Array.prototype.sort`, which is stable: insertion sort by a comparison. `le x y` says that the
-- comparator gives a number that is not positive.
use Prim.Native.Nat.{ℕ, suc}
use mathlib.Core.Path.{◌≡◌, refl, ap, ◌∙◌}
use mathlib.Core.Bool.{Bool, true, false}
use mathlib.Core.Logic.{inl, inr}
use mathlib.Core.List.{List, [], ◌∷◌, Perm}
use mathlib.Core.List.Perm
use native.Mathlib.Omega.{arith}
use qisma_be.Prelude.Tests.{if◌then◌else◌, Bool-cases}
use qisma_be.Prelude.Lists.{length, count, keep, All}

module _ {ℓ} {A : Type ℓ} (le : A → A → Bool) where
  unfoldable pub insert : A → List A → List A
  insert x [] = x ∷ []
  insert x (y ∷ ys) = if le x y then x ∷ (y ∷ ys) else y ∷ insert x ys

  unfoldable pub sort : List A → List A
  sort [] = []
  sort (x ∷ xs) = insert x (sort xs)

  length-insert : (x : A) (xs : List A) → length (insert x xs) ≡ suc (length xs)
  unfolding insert
  length-insert x [] = refl
  length-insert x (y ∷ ys) = ground (arith, length-insert x ys)

  pub length-sort : (xs : List A) → length (sort xs) ≡ length xs
  unfolding sort
  length-sort [] = refl
  length-sort (x ∷ xs) = omega (arith, length-insert x (sort xs), length-sort xs)

  pub All-insert {κ} : (P : A → Type κ) (x : A) (xs : List A) → P x → All P xs → All P (insert x xs)
  unfolding insert
  All-insert P x [] p ps = (p, tt)
  All-insert P x (y ∷ ys) p (q, qs) = elim (Bool-cases (le x y)) [
    | inl e ↦ rw e (p, (q, qs))
    | inr e ↦ rw e (q, All-insert P x ys p qs)
  ]

  pub All-sort {κ} : (P : A → Type κ) (xs : List A) → All P xs → All P (sort xs)
  unfolding sort
  All-sort P [] ps = tt
  All-sort P (x ∷ xs) (p, ps) = All-insert P x (sort xs) p (All-sort P xs ps)

  insert-Perm : (x : A) (xs : List A) → Perm (insert x xs) (x ∷ xs)
  unfolding insert
  insert-Perm x [] = Perm.refl (x ∷ [])
  insert-Perm x (y ∷ ys) = elim (Bool-cases (le x y)) [
    | inl e ↦ rw e (Perm.refl (x ∷ y ∷ ys))
    | inr e ↦ rw e (Perm.trans (Perm.cons y (insert-Perm x ys)) (Perm.swap x y ys))
  ]

  pub sort-Perm : (xs : List A) → Perm (sort xs) xs
  unfolding sort
  sort-Perm [] = Perm.refl []
  sort-Perm (x ∷ xs) = Perm.trans (insert-Perm x (sort xs)) (Perm.cons x (sort-Perm xs))

  -- The head comes no later than any other element, and so on down the list.
  abbrev pub IsSorted : List A → Type 0
  IsSorted [] = Unit
  IsSorted (x ∷ xs) = All (λ y. le x y ≡ true) xs × IsSorted xs

  -- What a comparator has to meet.
  pub record IsPreorder : Type ℓ where
    pub trans : (x y z : A) → le x y ≡ true → le y z ≡ true → le x z ≡ true
    pub total : (x y : A) → le x y ≡ false → le y x ≡ true

  module _ (order : IsPreorder) where
    open order use {trans, total}

    All-le :
        (x y : A) (xs : List A)
        → le x y ≡ true
        → All (λ z. le y z ≡ true) xs
        → All (λ z. le x z ≡ true) xs
    All-le x y [] h ps = tt
    All-le x y (z ∷ zs) h (p, ps) = (trans x y z h p, All-le x y zs h ps)

    insert-IsSorted : (x : A) (xs : List A) → IsSorted xs → IsSorted (insert x xs)
    unfolding insert
    insert-IsSorted x [] s = (tt, tt)
    insert-IsSorted x (y ∷ ys) (h, s) = elim (Bool-cases (le x y)) [
      | inl e ↦ rw e ((e, All-le x y ys e h), (h, s))
      | inr e ↦ rw e (All-insert (λ z. le y z ≡ true) x ys (total x y e) h, insert-IsSorted x ys s)
    ]

    pub sort-IsSorted : (xs : List A) → IsSorted (sort xs)
    unfolding sort
    sort-IsSorted [] = tt
    sort-IsSorted (x ∷ xs) = insert-IsSorted x (sort xs) (sort-IsSorted xs)

  module _ (order : IsPreorder) (q : A → Bool) where
    open order use {trans}

    keep_other : (x : A) (ys : List A) → q x ≡ false → keep q (insert x ys) ≡ keep q ys
    unfolding insert
    keep_other x [] e = ground arith
    keep_other x (y ∷ ys) e = ground (arith, keep_other x ys e)

    insert-first :
        (x : A) (ys : List A) → All (λ y. le x y ≡ true) ys → insert x (keep q ys) ≡ x ∷ keep q ys
    unfolding insert
    insert-first x [] h = refl
    insert-first x (y ∷ ys) (p, h) = ground (arith, p, insert-first x ys h)

    keep-insert :
        (x : A) (ys : List A)
        → q x ≡ true
        → IsSorted ys
        → keep q (insert x ys) ≡ insert x (keep q ys)
    unfolding insert
    keep-insert x [] e s = ground arith
    keep-insert x (y ∷ ys) e (h, s) = elim (Bool-cases (le x y)) [
      | inl f ↦ ground (arith, e, f, insert-first x (y ∷ ys) (f, All-le order x y ys f h))
      | inr f ↦ ground (arith, e, f, keep-insert x ys e s)
    ]

    -- The elements of a sorted list that pass a test are those elements, sorted.
    pub keep-sort : (xs : List A) → keep q (sort xs) ≡ sort (keep q xs)
    unfolding sort
    keep-sort [] = refl
    keep-sort (x ∷ xs) = elim (Bool-cases (q x)) [
      | inl e ↦
          rw e (keep-insert x (sort xs) e (sort-IsSorted order xs) ∙ ap (insert x) (keep-sort xs))
      | inr e ↦ rw e (keep_other x (sort xs) e ∙ keep-sort xs)
    ]

module _ (le : ℕ → ℕ → Bool) where
  count-insert : (a x : ℕ) (xs : List ℕ) → count a (insert le x xs) ≡ count a (x ∷ xs)
  unfolding insert
  count-insert a x [] = refl
  count-insert a x (y ∷ ys) = ground (arith, count-insert a x ys)

  pub count-sort : (a : ℕ) (xs : List ℕ) → count a (sort le xs) ≡ count a xs
  unfolding sort
  count-sort a [] = refl
  count-sort a (x ∷ xs) = omega (arith, count-insert a x (sort le xs), count-sort a xs)
