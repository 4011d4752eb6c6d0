-- ===== src/Groups/Rows.antt =====
-- Counting the rows of the membership table under each query that changes it.
use qisma_be.Prelude.{
  ℕ, ◌+◌, ◌≤◌, ◌≡◌, refl, Bool, true, false, not, none, some, List, [], ◌∷◌, ◌++◌, arith,
  if◌then◌else◌, find?, keep, All, Bool-cases, inl, inr,
}
use qisma_be.Groups.Store.{Member, update_rows}

abbrev pub one : Bool → ℕ
one b = if b then 1 else 0

module _ {A : Type 0} where
  -- How many rows pass a test.
  abbrev pub tally : (A → Bool) → List A → ℕ
  tally p [] = 0
  tally p (x ∷ xs) = one (p x) + tally p xs

  pub tally-append : (p : A → Bool) (xs ys : List A) → tally p (xs ++ ys) ≡ tally p xs + tally p ys
  tally-append p [] ys = omega arith
  tally-append p (x ∷ xs) ys = omega (arith, tally-append p xs ys)

  pub find?-none : (p : A → Bool) (xs : List A) → find? p xs ≡ none → tally p xs ≡ 0
  find?-none p [] e = refl
  find?-none p (x ∷ xs) e = ground (arith, find?-none p xs)

  -- A test that a kept row passes in no other way than it did.
  pub tally-keep :
      (p q : A → Bool) (xs : List A)
      → ((x : A) → q x ≡ true → p x ≡ true)
      → tally q (keep p xs) ≡ tally q xs
  tally-keep p q [] h = refl
  tally-keep p q (x ∷ xs) h = ground (arith, tally-keep p q xs h, h x)

  pub tally-keep-false :
      (p q : A → Bool) (xs : List A)
      → ((x : A) → q x ≡ true → p x ≡ false)
      → tally q (keep p xs) ≡ 0
  tally-keep-false p q [] h = refl
  tally-keep-false p q (x ∷ xs) h = ground (arith, tally-keep-false p q xs h, h x)

  pub tally-keep-le : (p q : A → Bool) (xs : List A) → tally q (keep p xs) ≤ tally q xs
  tally-keep-le p q [] = omega arith
  tally-keep-le p q (x ∷ xs) = ground (arith, tally-keep-le p q xs)

  pub tally-le :
      (p q : A → Bool) (xs : List A) → ((x : A) → q x ≡ true → p x ≡ true) → tally q xs ≤ tally p xs
  tally-le p q [] h = omega arith
  tally-le p q (x ∷ xs) h = ground (arith, tally-le p q xs h, h x)

  pub All-keep : (P : A → Type 0) (p : A → Bool) (xs : List A) → All P xs → All P (keep p xs)
  All-keep P p [] h = tt
  All-keep P p (x ∷ xs) (h, hs) = elim (Bool-cases (p x)) [
    | inl e ↦ rw e (h, All-keep P p xs hs)
    | inr e ↦ rw e (All-keep P p xs hs)
  ]

  pub All-append : (P : A → Type 0) (xs ys : List A) → All P xs → All P ys → All P (xs ++ ys)
  All-append P [] ys h k = k
  All-append P (x ∷ xs) ys (h, hs) k = (h, All-append P xs ys hs k)

  pub All-find? :
      (P : A → Type 0) (p : A → Bool) (xs : List A) {r : A} → All P xs → find? p xs ≡ some r → P r
  All-find? P p [] h e = cc
  All-find? P p (x ∷ xs) {r} (h, hs) e = elim (Bool-cases (p x)) [
    | inl t ↦ let same : x ≡ r = ground arith in rw same at h
    | inr t ↦ All-find? P p xs hs (rw t at e)
  ]

  keep_all : (p : A → Bool) (xs : List A) → tally p xs ≡ 0 → keep (λ x. not (p x)) xs ≡ xs
  keep_all p [] h = refl
  keep_all p (x ∷ xs) h = ground (arith, keep_all p xs)

  -- Where one row at most passes the test, the row that is found goes.
  pub tally-delete :
      (p q : A → Bool) (xs : List A) {r : A}
      → find? p xs ≡ some r
      → tally p xs ≤ 1
      → tally q (keep (λ x. not (p x)) xs) + one (q r) ≡ tally q xs
  tally-delete p q [] e h = cc
  tally-delete p q (x ∷ xs) {r} e h = ground (arith, tally-delete p q xs {r = r}, keep_all p xs)

  -- The test passes for the row that is found.
  pub find?-true : (p : A → Bool) (xs : List A) {r : A} → find? p xs ≡ some r → p r ≡ true
  find?-true p [] e = cc
  find?-true p (x ∷ xs) {r} e = ground (arith, find?-true p xs {r = r})

module _ (p : Member → Bool) (f : Member → Member) where
  update_none : (xs : List Member) → tally p xs ≡ 0 → update_rows p f xs ≡ xs
  update_none [] h = refl
  update_none (x ∷ xs) h = ground (arith, update_none xs)

  -- Where one row at most passes the test, the row that is found changes.
  pub tally-update :
      (q : Member → Bool) (xs : List Member) {r : Member}
      → find? p xs ≡ some r
      → tally p xs ≤ 1
      → tally q (update_rows p f xs) + one (q r) ≡ tally q xs + one (q (f r))
  tally-update q [] e h = cc
  tally-update q (x ∷ xs) {r} e h = ground (arith, tally-update q xs {r = r}, update_none xs)

  pub All-update :
      (P : Member → Type 0) (xs : List Member) {r : Member}
      → find? p xs ≡ some r
      → tally p xs ≤ 1
      → All P xs
      → P (f r)
      → All P (update_rows p f xs)
  All-update P [] e h a k = cc
  All-update P (x ∷ xs) {r} e h (a, aok) k = elim (Bool-cases (p x)) [
    | inl t ↦
        let same : x ≡ r = ground arith in rw (t, update_none xs (ground arith), same) (k, aok)
    | inr t ↦ rw t (a, All-update P xs (rw t at e) (ground arith) aok k)
  ]
