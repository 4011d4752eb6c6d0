-- ===== src/Splits/Shares/Within.antt =====
-- src/modules/splits/expense-split.service.ts: lists of user ids, and what is kept by user, within a
-- given list of users.
use mathlib.Core.Path.{subst}
use qisma_be.Prelude.{
  ℕ, ◌≡◌, inl, inr, true, Option, List, [], ◌∷◌, ◌++◌, arith, ◌==◌, All, Bool-cases,
}
use qisma_be.Splits.Shares.{unique_from, contains, covers, update}

abbrev pub IsIn : List ℕ → ℕ → Type 0
IsIn all id = contains id all ≡ true

-- The list holds what the other holds.
abbrev pub Within : List ℕ → List ℕ → Type 0
Within all = All (IsIn all)

Within-cons : (x : ℕ) (all ids : List ℕ) → Within all ids → Within (x ∷ all) ids
Within-cons x all [] h = tt
Within-cons x all (id ∷ ids) (p, h) = (ground (arith, p), Within-cons x all ids h)

pub Within-self : (ids : List ℕ) → Within ids ids
Within-self [] = tt
Within-self (id ∷ ids) = (ground arith, Within-cons id ids ids (Within-self ids))

pub contains-left : (id : ℕ) (xs ys : List ℕ) → IsIn xs id → IsIn (xs ++ ys) id
contains-left id [] ys h = absurd (ground arith)
contains-left id (x ∷ xs) ys h = ground (arith, contains-left id xs ys)

pub contains-right : (id : ℕ) (xs ys : List ℕ) → IsIn ys id → IsIn (xs ++ ys) id
contains-right id [] ys h = h
contains-right id (x ∷ xs) ys h = ground (arith, contains-right id xs ys h)

pub All-weaken :
    {P Q : ℕ → Type 0} (ids : List ℕ) → ((id : ℕ) → P id → Q id) → All P ids → All Q ids
All-weaken [] f h = tt
All-weaken (id ∷ ids) f (p, h) = (f id p, All-weaken ids f h)

pub All-unique : (all seen ids : List ℕ) → Within all ids → Within all (unique_from seen ids)
unfolding unique_from
All-unique all seen [] h = tt
All-unique all seen (id ∷ ids) (p, h) = elim (Bool-cases (contains id seen)) [
  | inl e ↦ rw e (All-unique all seen ids h)
  | inr e ↦ rw e (p, All-unique all (id ∷ seen) ids h)
]

pub covers-Within : (all ids : List ℕ) → covers all ids ≡ true → Within all ids
covers-Within all [] e = tt
covers-Within all (id ∷ ids) e = (ground arith, covers-Within all ids (ground arith))

pub IsIn-of : (all ids : List ℕ) (id : ℕ) → Within all ids → IsIn ids id → IsIn all id
IsIn-of all [] id h e = absurd (ground arith)
IsIn-of all (x ∷ ids) id (p, h) e = elim (Bool-cases (x == id)) [
  | inl q ↦ subst (IsIn all) (ground arith) p
  | inr q ↦ IsIn-of all ids id h (ground arith)
]

module _ (all : List ℕ) {V : Type 0} where
  -- All keys are among the users.
  abbrev pub Keyed : List (ℕ × V) → Type 0
  Keyed = All (λ e. IsIn all e.0)

  pub update-Keyed :
      (id : ℕ) (f : Option V → V) (es : List (ℕ × V))
      → IsIn all id
      → Keyed es
      → Keyed (update id f es)
  update-Keyed id f [] p h = (p, tt)
  update-Keyed id f ((k, v) ∷ es) p (q, h) = elim (Bool-cases (k == id)) [
    | inl e ↦ rw e (q, h)
    | inr e ↦ rw e (q, update-Keyed id f es p h)
  ]
