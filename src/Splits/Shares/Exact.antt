-- ===== src/Splits/Shares/Exact.antt =====
-- What the shares of `ExpenseSplitService.compute` add up to.
use mathlib.Core.Path.{subst}
use qisma_be.Prelude.{
  ℕ, ◌+◌, ◌≤◌, ◌<◌, ◌≡◌, refl, sym, ap, ◌∙◌, Bool, true, some, List, [], ◌∷◌, map, arith, length,
  length-map, get_or, All,
}
use qisma_be.Prelude.Int.{ℤ, pos, pos_part, neg_part, leb_ℤ, ◌+ℤ◌, ◌-ℤ◌}
use qisma_be.Prelude.Result.{ok}
use qisma_be.Splits.Decimal.{DecimalLib, IsExact}
use qisma_be.Splits.Money.Exact.{
  texts, worth_of_all, to_minor_lem, from_minor-IsMoney, distribute_equal_exact,
}
use qisma_be.Splits.Debt.Transfers.{units}
use qisma_be.Splits.Shares.{
  SplitType, SplitInput, Share, SplitResult, sum_texts, near, plain_shares, wrap, unique,
  rounded_text,
}
use qisma_be.Splits.Shares.Ways.{split_equal, compute}

add_nonneg :
    (a b : ℤ)
    → neg_part a ≡ 0
    → neg_part b ≡ 0
    → (neg_part (a +ℤ b) ≡ 0) × (pos_part (a +ℤ b) ≡ pos_part a + pos_part b)
unfolding ◌+ℤ◌
add_nonneg a b p q = ground arith

sub_self : (a b : ℤ) → a ≡ b → pos_part (a -ℤ b) + neg_part (a -ℤ b) ≡ 0
unfolding ◌-ℤ◌
sub_self a b e = ground arith

zero-leb : (a : ℤ) → neg_part a ≡ 0 → leb_ℤ (pos 0) a ≡ true
zero-leb a e = ground arith

pub nonneg_eq : (a b : ℤ) → neg_part a ≡ 0 → neg_part b ≡ 0 → pos_part a ≡ pos_part b → a ≡ b
nonneg_eq a b p q e = ground arith

module _ (lib : DecimalLib) (laws : IsExact lib) where
  open lib use {Decimal, Text, parse, to_dp, sub, abs, add, lte, eps, nought}
  open laws use {
    value, IsAt, value-nought, value-add, value-sub, value-abs, lte-value, eps_nonneg, to_dp-eq,
  }

  -- A text of a number that is not negative.
  abbrev pub IsMoney : Text → Type 0
  IsMoney t = (d : Decimal) × (parse t ≡ some d) × (neg_part (value d) ≡ 0)

  pub sum_texts_lem :
      (acc : Decimal) (ts : List Text)
      → All IsMoney ts
      → neg_part (value acc) ≡ 0
      → (sum : Decimal) × (sum_texts lib acc ts ≡ ok sum)
        × (neg_part (value sum) ≡ 0)
        × (pos_part (value sum) ≡ pos_part (value acc) + worth_of_all lib laws ts)
  unfolding sum_texts
  sum_texts_lem acc [] h n = (acc, refl, n, omega arith)
  sum_texts_lem acc (t ∷ ts) ((d, p, q), h) n =
      let e = value-add acc d in
      let (neg, sum_up) = add_nonneg (value acc) (value d) n q in
      let (sum, r, a, b) = sum_texts_lem (add acc d) ts h (ap neg_part e ∙ neg) in
      (sum, ground (arith, p, r), a, ground (arith, b, e, sum_up))

  -- Equal sums pass the internal check.
  near_equal : (a b : Decimal) → value a ≡ value b → near lib eps a b ≡ true
  near_equal a b e =
      lte-value (abs (sub a b)) eps
      ∙ ap (λ z. leb_ℤ z (value eps))
          (value-abs (sub a b)
            ∙ ap (λ z. pos (pos_part z + neg_part z)) (value-sub a b)
            ∙ ap pos (sub_self (value a) (value b) e))
      ∙ zero-leb (value eps) eps_nonneg

  wrap_lem :
      (type : SplitType) (owed : List (Share Text)) (total : Text) (d : Decimal)
      (currency scale : ℕ)
      → scale ≤ 8
      → parse total ≡ some d
      → IsAt scale d
      → neg_part (value d) ≡ 0
      → All IsMoney (map (λ p. p.owed_amount) owed)
      → worth_of_all lib laws (map (λ p. p.owed_amount) owed) ≡ units lib laws d
      → (r : SplitResult Text) × (wrap lib type owed total currency scale ≡ ok r)
        × (r.participant_shares ≡ owed)
  unfolding wrap
  wrap_lem type owed total d currency scale h p at n m w =
      let (sum, r, a, b) =
        sum_texts_lem nought (map (λ p. p.owed_amount) owed) m (ap neg_part value-nought) in
      let same : value sum ≡ value d = nonneg_eq (value sum) (value d) a n (
        b
        ∙ ap (λ z. z + worth_of_all lib laws (map (λ p. p.owed_amount) owed))
            (ap pos_part value-nought)
        ∙ omega (arith, w)) in
      let (k, e, _) =
        to_minor_lem lib laws total d scale h p
          (ap (λ z. neg_part (value z)) (to_dp-eq d scale at) ∙ n) in
      (
        record {
          split_type = type;
          participant_shares = owed;
          sum_owed = rounded_text lib scale sum;
          currency = currency;
          scale = scale;
        },
        ground (arith, r, p, near_equal sum d same, e),
        refl,
      )

  pub texts-IsMoney : (ms : List ℕ) (scale : ℕ) → scale ≤ 8 → All IsMoney (texts lib laws scale ms)
  texts-IsMoney [] scale h = tt
  texts-IsMoney (m ∷ ms) scale h = (from_minor-IsMoney lib laws m scale h, texts-IsMoney ms scale h)

  pub owed-plain_shares :
      (ids : List ℕ) (parts : List Text)
      → length ids ≡ length parts
      → map (λ p. p.owed_amount) (plain_shares lib ids parts) ≡ parts
  owed-plain_shares [] [] e = refl
  owed-plain_shares [] (t ∷ ts) e = absurd (omega arith)
  owed-plain_shares (id ∷ ids) [] e = absurd (omega arith)
  owed-plain_shares (id ∷ ids) (t ∷ ts) e = ap (λ z. t ∷ z) (owed-plain_shares ids ts (omega arith))

  users-plain_shares :
      (ids : List ℕ) (parts : List Text) → map (λ p. p.user_id) (plain_shares lib ids parts) ≡ ids
  users-plain_shares [] parts = refl
  users-plain_shares (id ∷ ids) [] = ap (λ z. id ∷ z) (users-plain_shares ids [])
  users-plain_shares (id ∷ ids) (t ∷ ts) = ap (λ z. id ∷ z) (users-plain_shares ids ts)

  -- An equal split of a total that is not negative, has no more places than the scale, at most 8, and
  -- fits the 20 digits of decimal.js:
  -- `compute` returns one share for each of the different participants, in their order; the shares
  -- add up to exactly the total, and no two of them differ by more than one unit of the scale.
  pub split_equal_exact :
      (id_le : ℕ → ℕ → Bool) (ids : List ℕ) (total : Text) (d : Decimal) (currency scale : ℕ)
      → scale ≤ 8
      → parse total ≡ some d
      → IsAt scale d
      → neg_part (value d) ≡ 0
      → 0 < length (unique ids)
      → (r : SplitResult Text) × (ms : List ℕ) × (compute lib id_le
            (SplitInput.equal ids)
            total
            currency
            (some scale)
          ≡ ok r)
        × (map (λ p. p.user_id) r.participant_shares ≡ unique ids)
        × (map (λ p. p.owed_amount) r.participant_shares ≡ texts lib laws scale ms)
        × (worth_of_all lib laws (texts lib laws scale ms) ≡ units lib laws d)
        × ((i j : ℕ)
            → i < length (unique ids)
            → j < length (unique ids)
            → get_or ms i 0 ≤ get_or ms j 0 + 1)
  unfolding compute split_equal
  split_equal_exact id_le ids total d currency scale h p at n len =
      let us = unique ids in
      let same = to_dp-eq d scale at in
      let (ms, e, l, all, close) =
        distribute_equal_exact lib laws total d (length us) scale h p
          (ap (λ z. neg_part (value z)) same ∙ n) len in
      let parts = texts lib laws scale ms in
      let all' = all ∙ ap (λ z. units lib laws z) same in
      let owed_eq = owed-plain_shares us parts (sym l ∙ sym (length-map _ ms)) in
      let (r, w, s) =
        wrap_lem SplitType.equal (plain_shares lib us parts) total d currency scale h p at n
          (subst (All IsMoney) (sym owed_eq) (texts-IsMoney ms scale h))
          (ap (worth_of_all lib laws) owed_eq ∙ all') in
      (
        r,
        ms,
        ground (arith, e, w, len),
        ap (map (λ p. p.user_id)) s ∙ users-plain_shares us parts,
        ap (map (λ p. p.owed_amount)) s ∙ owed_eq,
        all',
        close,
      )
