-- ===== src/Splits/Shares/Fine.antt =====
-- `ExpenseSplitService.compute` on an equal split of a total that has more places than the scale.
use mathlib.Core.Path.{subst}
use qisma_be.Prelude.{
  ℕ, ◌+◌, ◌≤◌, ◌<◌, ◌≡◌, sym, ap, ◌∙◌, Bool, false, some, List, map, arith, length, length-map,
}
use qisma_be.Prelude.Int.{ℤ, pos, pos_part, neg_part, leb_ℤ, ◌-ℤ◌}
use qisma_be.Prelude.Result.{ok, err}
use qisma_be.Splits.Decimal.{DecimalLib, IsExact}
use qisma_be.Splits.Money.Exact.{texts, worth_of_all, distribute_equal_exact}
use qisma_be.Splits.Shares.{
  SplitType, SplitInput, Share, sum_texts, near, plain_shares, wrap, unique, sum_not_total,
}
use qisma_be.Splits.Shares.Ways.{split_equal, compute}
use qisma_be.Splits.Shares.Exact.{sum_texts_lem, texts-IsMoney, owed-plain_shares, nonneg_eq}

module _ (lib : DecimalLib) (laws : IsExact lib) where
  open lib use {Decimal, Text, parse, to_dp, sub, abs, eps, nought}
  open laws use {value, value-nought, value-sub, value-abs, lte-value, eps_nonneg}

  -- How far apart two numbers are.
  abbrev pub gap : Decimal → Decimal → ℕ
  gap a b = let c = value a -ℤ value b in pos_part c + neg_part c

  near-gap : (a b : Decimal) → near lib eps a b ≡ leb_ℤ (pos (gap a b)) (value eps)
  near-gap a b =
      lte-value (abs (sub a b)) eps
      ∙ ap (λ z. leb_ℤ z (value eps))
          (value-abs (sub a b) ∙ ap (λ z. pos (pos_part z + neg_part z)) (value-sub a b))

  wide-near : (a b : Decimal) → pos_part (value eps) < gap a b → near lib eps a b ≡ false
  wide-near a b h = near-gap a b ∙ wide (value eps) (gap a b) eps_nonneg h
    where
      wide : (e : ℤ) (n : ℕ) → neg_part e ≡ 0 → pos_part e < n → leb_ℤ (pos n) e ≡ false
      wide e n p q = ground arith

  wrap-refuses :
      (type : SplitType) (owed : List (Share Text)) (total : Text) (d sum : Decimal)
      (currency scale : ℕ)
      → parse total ≡ some d
      → sum_texts lib nought (map (λ p. p.owed_amount) owed) ≡ ok sum
      → pos_part (value eps) < gap sum d
      → wrap lib type owed total currency scale ≡ err sum_not_total
  unfolding wrap
  wrap-refuses type owed total d sum currency scale p s g = ground (arith, p, s, wide-near sum d g)

  -- An equal split of a total that is not negative once it is rounded to the scale, at most 8, but
  -- that the rounding changes by more than the tolerance of 0.0001, in numbers that fit the 20 digits
  -- of decimal.js: whoever takes part, `compute`
  -- throws, since the parts add up to the rounded total.
  pub split_equal_fine :
      (id_le : ℕ → ℕ → Bool) (ids : List ℕ) (total : Text) (d : Decimal) (currency scale : ℕ)
      → scale ≤ 8
      → parse total ≡ some d
      → neg_part (value (to_dp d scale)) ≡ 0
      → pos_part (value eps) < gap (to_dp d scale) d
      → 0 < length (unique ids)
      → compute lib id_le (SplitInput.equal ids) total currency (some scale) ≡ err sum_not_total
  unfolding compute split_equal
  split_equal_fine id_le ids total d currency scale h p n g len =
      let us = unique ids in
      let (ms, e, l, all, _) =
        distribute_equal_exact lib laws total d (length us) scale h p n len in
      let parts = texts lib laws scale ms in
      let owed_eq = owed-plain_shares lib laws us parts (sym l ∙ sym (length-map _ ms)) in
      let (sum, r, a, b) =
        sum_texts_lem lib laws nought parts (texts-IsMoney lib laws ms scale h)
          (ap neg_part value-nought) in
      let same : value sum ≡ value (to_dp d scale) =
        nonneg_eq (value sum) (value (to_dp d scale)) a n (
          b
          ∙ ap (λ z. pos_part z + worth_of_all lib laws parts) value-nought
          ∙ omega (arith, all)) in
      let far : pos_part (value eps) < gap sum d =
        subst (λ z. pos_part (value eps) < pos_part (z -ℤ value d) + neg_part (z -ℤ value d))
          (sym same) g in
      ground (
        arith,
        e,
        len,
        wrap-refuses SplitType.equal (plain_shares lib us parts) total d sum currency scale p
            (ap (sum_texts lib nought) owed_eq ∙ r) far,
      )
