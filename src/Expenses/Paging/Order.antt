-- ===== src/Expenses/Paging/Order.antt =====
-- The order of the lists, and the rows that a cursor leaves.
use qisma_be.Prelude.{
  ℕ, ◌≡◌, ◌≢◌, refl, sym, ap, ◌∙◌, Bool, true, false, not, ◌&&◌, Option, List, [], ◌∷◌, ◌++◌, arith,
  keep, take, All, Bool-cases, inl, inr,
}
use qisma_be.Prelude.Sort.{
  sort, insert, IsSorted, IsPreorder, sort-IsSorted, All-insert, All-sort, keep-sort,
}
use qisma_be.Expenses.Paging.{Key, Direction, asc, desc, beyond, row_le, after_cursor, find_many}

beyond_irrefl : (dir : Direction) (a : Key) → beyond dir a a ≡ false
beyond_irrefl asc a = ground arith
beyond_irrefl desc a = ground arith

beyond_trans :
    (dir : Direction) (a b c : Key)
    → beyond dir a b ≡ true
    → beyond dir b c ≡ true
    → beyond dir a c ≡ true
beyond_trans asc a b c p q = ground arith
beyond_trans desc a b c p q = ground arith

beyond_asym : (dir : Direction) (a b : Key) → beyond dir a b ≡ true → beyond dir b a ≡ false
beyond_asym asc a b p = ground arith
beyond_asym desc a b p = ground arith

beyond_total :
    (dir : Direction) (a b : Key) → a.1 ≢ b.1 → beyond dir b a ≡ false → beyond dir a b ≡ true
beyond_total asc a b n p = ground arith
beyond_total desc a b n p = ground arith

module _ {A : Type 0} (dir : Direction) (key : A → Key) where
  pub row_le-IsPreorder : IsPreorder (row_le dir key)
  row_le-IsPreorder = record {
    trans = λ x y z p q. le_trans dir (key x) (key y) (key z) p q;
    total = λ x y p. le_total dir (key x) (key y) p;
  }
    where
      le_trans :
          (d : Direction) (a b c : Key)
          → not (beyond d b a) ≡ true
          → not (beyond d c b) ≡ true
          → not (beyond d c a) ≡ true
      le_trans asc a b c p q = ground arith
      le_trans desc a b c p q = ground arith

      le_total :
          (d : Direction) (a b : Key) → not (beyond d b a) ≡ false → not (beyond d a b) ≡ true
      le_total asc a b p = ground arith
      le_total desc a b p = ground arith

  -- No two rows have the same id.
  abbrev pub Differ : List A → Type 0
  Differ [] = Unit
  Differ (x ∷ xs) = All (λ y. (key x).1 ≢ (key y).1) xs × Differ xs

  -- Each row comes before all that follow.
  abbrev pub Strict : List A → Type 0
  Strict [] = Unit
  Strict (x ∷ xs) = All (λ y. beyond dir (key x) (key y) ≡ true) xs × Strict xs

  All-keep {κ} : (P : A → Type κ) (p : A → Bool) (xs : List A) → All P xs → All P (keep p xs)
  All-keep P p [] h = tt
  All-keep P p (x ∷ xs) (a, h) = elim (Bool-cases (p x)) [
    | inl e ↦ rw e (a, All-keep P p xs h)
    | inr e ↦ rw e (All-keep P p xs h)
  ]

  Differ-keep : (p : A → Bool) (xs : List A) → Differ xs → Differ (keep p xs)
  Differ-keep p [] h = tt
  Differ-keep p (x ∷ xs) (a, h) = elim (Bool-cases (p x)) [
    | inl e ↦ rw e (All-keep (λ y. (key x).1 ≢ (key y).1) p xs a, Differ-keep p xs h)
    | inr e ↦ rw e (Differ-keep p xs h)
  ]

  Differ-insert :
      (x : A) (xs : List A)
      → All (λ y. (key x).1 ≢ (key y).1) xs
      → Differ xs
      → Differ (insert (row_le dir key) x xs)
  unfolding insert
  Differ-insert x [] a h = (tt, tt)
  Differ-insert x (y ∷ ys) (n, a) (b, h) = elim (Bool-cases (row_le dir key x y)) [
    | inl e ↦ rw e ((n, a), (b, h))
    | inr e ↦ rw e (
      All-insert (row_le dir key) (λ z. (key y).1 ≢ (key z).1) x ys (λ q. n (sym q)) b,
      Differ-insert x ys a h,
    )
  ]

  Differ-sort : (xs : List A) → Differ xs → Differ (sort (row_le dir key) xs)
  unfolding sort
  Differ-sort [] h = tt
  Differ-sort (x ∷ xs) (a, h) =
      Differ-insert x (sort (row_le dir key) xs)
        (All-sort (row_le dir key) (λ y. (key x).1 ≢ (key y).1) xs a) (Differ-sort xs h)

  Strict-of : (xs : List A) → IsSorted (row_le dir key) xs → Differ xs → Strict xs
  Strict-of [] s d = tt
  Strict-of (x ∷ xs) (a, s) (b, d) = (each xs a b, Strict-of xs s d)
    where
      each :
          (ys : List A)
          → All (λ y. row_le dir key x y ≡ true) ys
          → All (λ y. (key x).1 ≢ (key y).1) ys
          → All (λ y. beyond dir (key x) (key y) ≡ true) ys
      each [] p q = tt
      each (y ∷ ys) (p, ps) (q, qs) =
          (beyond_total dir (key x) (key y) q (ground (arith, p)), each ys ps qs)

  keep-All : (p : A → Bool) (xs : List A) → All (λ x. p x ≡ true) xs → keep p xs ≡ xs
  keep-All p [] h = refl
  keep-All p (x ∷ xs) (e, h) = ground (arith, e, keep-All p xs h)

  pub All-append : (P : A → Type 0) (xs ys : List A) → All P (xs ++ ys) → All P ys
  All-append P [] ys h = h
  All-append P (x ∷ xs) ys (a, h) = All-append P xs ys h

  -- In a list in order, the rows beyond one of them are those that follow it.
  pub rest_after :
      (front : List A) (l : A) (rest : List A)
      → Strict (front ++ (l ∷ rest))
      → keep (λ y. beyond dir (key l) (key y)) (front ++ (l ∷ rest)) ≡ rest
  rest_after [] l rest (a, s) =
      rw (beyond_irrefl dir (key l)) (keep-All (λ y. beyond dir (key l) (key y)) rest a)
  rest_after (x ∷ front) l rest (a, s) =
      rw (beyond_asym dir (key x) (key l) ((All-append _ front (l ∷ rest) a).0))
        (rest_after front l rest s)

  keep-keep : (p q : A → Bool) (xs : List A) → keep (λ x. p x && q x) xs ≡ keep q (keep p xs)
  keep-keep p q [] = refl
  keep-keep p q (x ∷ xs) = elim (Bool-cases (p x)) [
    | inl e ↦ rw e (ground (arith, keep-keep p q xs))
    | inr e ↦ rw e (keep-keep p q xs)
  ]

  module _ (p : A → Bool) (rows : List A) where
    -- All rows that pass the test, in order.
    abbrev pub listed : List A
    listed = sort (row_le dir key) (keep p rows)

    pub find_many_lem :
        (c : Option Key) (n : ℕ)
        → find_many dir key (λ x. p x && after_cursor dir key c x) n rows
          ≡ take n (keep (after_cursor dir key c) listed)
    find_many_lem c n =
        ap (λ z. take n (sort (row_le dir key) z)) (keep-keep p (after_cursor dir key c) rows)
        ∙ ap (take n) (
            sym
              (keep-sort (row_le dir key) row_le-IsPreorder (after_cursor dir key c) (keep p rows)))

    pub find_all : (n : ℕ) → find_many dir key (λ x. p x && true) n rows ≡ take n listed
    find_all n =
        find_many_lem Option.none n ∙ ap (take n) (keep-All (λ x. true) listed (all_true listed))
      where
        all_true : (xs : List A) → All (λ x. true ≡ true) xs
        all_true [] = tt
        all_true (x ∷ xs) = (refl, all_true xs)

    pub listed-Strict : Differ rows → Strict listed
    listed-Strict d =
        Strict-of listed (sort-IsSorted (row_le dir key) row_le-IsPreorder (keep p rows))
          (Differ-sort (keep p rows) (Differ-keep p rows d))

    pub listed-All {κ} : (P : A → Type κ) → All P rows → All P listed
    listed-All P h = All-sort (row_le dir key) P (keep p rows) (All-keep P p rows h)
