-- ===== src/Expenses/Paging/Walk.antt =====
-- Following the cursors of a list from its first page to its last.
use mathlib.Core.Path.{subst}
use qisma_be.Prelude.{
  ℕ, zero, suc, ◌+◌, ◌≤◌, ◌<◌, ◌≡◌, refl, sym, ap, ◌∙◌, true, false, Option, none, some, List, [],
  ◌∷◌, ◌++◌, arith, ltb, length, keep, take, Bool-cases, inl, inr,
}
use qisma_be.Prelude.Result.{Result, ok}
use qisma_be.Expenses.Paging.Order.{Strict, rest_after}
use qisma_be.Expenses.Paging.{Key, Direction, beyond, Page, last, page_of}

-- What a client gets that asks for the first page and then follows each cursor: the cursor that it
-- starts from, and the items of all pages.
pub data Walk {E A T : Type 0} (ask : Option T → Result E (Page A T))
    : Option T → List A → Type 0 where
  stop : (c : Option T) (p : Page A T) → ask c ≡ ok p → p.next_cursor ≡ none → Walk ask c p.items
  follow :
      (c : Option T) (p : Page A T) (t : T) (rest : List A)
      → ask c ≡ ok p
      → p.next_cursor ≡ some t
      → Walk ask (some t) rest
      → Walk ask c (p.items ++ rest)

abbrev pub drop : {A : Type 0} → ℕ → List A → List A
drop zero xs = xs
drop (suc n) [] = []
drop (suc n) (x ∷ xs) = drop n xs

take-drop : {A : Type 0} (n : ℕ) (xs : List A) → take n xs ++ drop n xs ≡ xs
take-drop zero xs = refl
take-drop (suc n) [] = refl
take-drop (suc n) (x ∷ xs) = ap (λ z. x ∷ z) (take-drop n xs)

take_again : {A : Type 0} (n : ℕ) (xs : List A) → take n (take (suc n) xs) ≡ take n xs
take_again zero xs = refl
take_again (suc n) [] = refl
take_again (suc n) (x ∷ xs) = ap (λ z. x ∷ z) (take_again n xs)

length-take : {A : Type 0} (n : ℕ) (xs : List A) → length (take n xs) ≤ n
length-take zero xs = omega arith
length-take (suc n) [] = omega arith
length-take (suc n) (x ∷ xs) = omega (arith, length-take n xs)

-- Whether there are more than so many.
more_lem : {A : Type 0} (n : ℕ) (xs : List A) → ltb n (length (take (suc n) xs)) ≡ ltb n (length xs)
more_lem zero [] = refl
more_lem zero (x ∷ xs) = ground arith
more_lem (suc n) [] = refl
more_lem (suc n) (x ∷ xs) = ground (arith, more_lem n xs)

few : {A : Type 0} (n : ℕ) (xs : List A) → length xs ≤ n → take n xs ≡ xs
few zero [] h = refl
few zero (x ∷ xs) h = absurd (omega arith)
few (suc n) [] h = refl
few (suc n) (x ∷ xs) h = ap (λ z. x ∷ z) (few n xs (omega arith))

length-drop : {A : Type 0} (n : ℕ) (xs : List A) → length (drop n xs) + n ≤ length xs + n
length-drop zero xs = omega arith
length-drop (suc n) [] = omega arith
length-drop (suc n) (x ∷ xs) = omega (arith, length-drop n xs)

last_lem :
    {A : Type 0} (x : A) (xs : List A)
    → (front : List A) × (l : A) × (last (x ∷ xs) ≡ some l) × (x ∷ xs ≡ front ++ (l ∷ []))
last_lem x [] = ([], x, refl, refl)
last_lem x (y ∷ ys) =
    let (front, l, e, s) = last_lem y ys in (x ∷ front, l, ground (arith, e), ap (λ z. x ∷ z) s)

append_assoc : {A : Type 0} (xs ys zs : List A) → (xs ++ ys) ++ zs ≡ xs ++ (ys ++ zs)
append_assoc [] ys zs = refl
append_assoc (x ∷ xs) ys zs = ap (λ z. x ∷ z) (append_assoc xs ys zs)

ltb-leb : (n m : ℕ) → ltb n m ≡ false → m ≤ n
ltb-leb n m h = ground arith

-- The last row of the first so many.
last-take :
    {A : Type 0} (n : ℕ) (xs : List A)
    → 0 < n
    → 0 < length xs
    → (front : List A) × (l : A) × (last (take n xs) ≡ some l) × (take n xs ≡ front ++ (l ∷ []))
last-take zero xs h k = absurd (omega arith)
last-take (suc n) [] h k = absurd (omega arith)
last-take (suc n) (x ∷ xs) h k = last_lem x (take n xs)

drop-shorter :
    {A : Type 0} (n : ℕ) (xs : List A) → 0 < n → 0 < length xs → length (drop n xs) < length xs
drop-shorter zero xs h k = absurd (omega arith)
drop-shorter (suc n) [] h k = absurd (omega arith)
drop-shorter (suc n) (x ∷ xs) h k = omega (arith, length-drop n xs)

module _ {A T : Type 0} (encode : A → T) (limit : ℕ) where
  module _ (xs : List A) where
    page-items : (page_of encode limit (take (suc limit) xs)).items ≡ take limit xs
    unfolding page_of
    page-items = take_again limit xs

    page-last :
        ltb limit (length xs) ≡ false
        → (page_of encode limit (take (suc limit) xs)).next_cursor ≡ none
    unfolding page_of
    page-last h = rw (more_lem limit xs, h) refl

    page-more :
        (l : A)
        → ltb limit (length xs) ≡ true
        → last (take limit xs) ≡ some l
        → (page_of encode limit (take (suc limit) xs)).next_cursor ≡ some (encode l)
    unfolding page_of
    page-more l h e = rw (more_lem limit xs, take_again limit xs, h, e) refl

  -- The answers of a list of the rows `all`, which are in order.
  module _ {E : Type 0} (dir : Direction) (key : A → Key) (ask : Option T → Result E (Page A T))
      (all : List A) (order : Strict dir key all)
      (answer : (x : A) (front rest : List A)
        → all ≡ front ++ (x ∷ rest)
        → ask (some (encode x))
          ≡ ok (
              page_of encode limit (take (suc limit) (keep (λ y. beyond dir (key x) (key y)) all))))
      (positive : 0 < limit) where
    from-Walk :
        (fuel : ℕ) (c : Option T) (front rest : List A)
        → length rest < fuel
        → all ≡ front ++ rest
        → ask c ≡ ok (page_of encode limit (take (suc limit) rest))
        → Walk ask c rest
    from-Walk zero c front rest h s e = absurd (omega arith)
    from-Walk (suc fuel) c front rest h s e = elim (Bool-cases (ltb limit (length rest))) [
      | inr stopped ↦
          subst (Walk ask c)
            (page-items rest ∙ few limit rest (ltb-leb limit (length rest) stopped))
            (stop c (page_of encode limit (take (suc limit) rest)) e (page-last rest stopped))
      | inl more ↦
          let (before, l, el, es) = last-take limit rest positive (ground (arith, more)) in
          let whole : rest ≡ before ++ (l ∷ drop limit rest) =
            sym (take-drop limit rest)
            ∙ ap (λ z. z ++ drop limit rest) es
            ∙ append_assoc before (l ∷ []) (drop limit rest) in
          let at : all ≡ (front ++ before) ++ (l ∷ drop limit rest) =
            s
            ∙ ap (λ z. front ++ z) whole
            ∙ sym (append_assoc front before (l ∷ drop limit rest)) in
          let left : keep (λ y. beyond dir (key l) (key y)) all ≡ drop limit rest =
            ap (keep (λ y. beyond dir (key l) (key y))) at
            ∙ rest_after dir key (front ++ before) l (drop limit rest)
                (subst (Strict dir key) at order) in
          let next =
            from-Walk fuel (some (encode l)) ((front ++ before) ++ (l ∷ [])) (drop limit rest)
              (omega (arith, drop-shorter limit rest positive (ground (arith, more)), h))
              (at ∙ sym (append_assoc (front ++ before) (l ∷ []) (drop limit rest)))
              (answer l (front ++ before) (drop limit rest) at
                ∙ ap (λ z. ok (page_of encode limit (take (suc limit) z))) left) in
          subst (Walk ask c)
            (ap (λ z. z ++ drop limit rest) (page-items rest) ∙ take-drop limit rest)
            (follow c (page_of encode limit (take (suc limit) rest)) (encode l) (drop limit rest) e
              (page-more rest l more el) next)
    ]

    pub all-Walk : ask none ≡ ok (page_of encode limit (take (suc limit) all)) → Walk ask none all
    all-Walk e = from-Walk (suc (length all)) none [] all (omega arith) refl e

-- Two lists that answer alike.
pub same-Walk :
    {E A T : Type 0} (ask other : Option T → Result E (Page A T))
    → ((c : Option T) → other c ≡ ask c)
    → {c : Option T} {xs : List A} → Walk ask c xs
    → Walk other c xs
same-Walk ask other h (stop c p e n) = stop c p (h c ∙ e) n
same-Walk ask other h (follow c p t rest e n k) =
    follow c p t rest (h c ∙ e) n (same-Walk ask other h k)
