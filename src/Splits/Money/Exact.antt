-- ===== src/Splits/Money/Exact.antt =====
-- The parts of an amount that `distributeMoneyByWeights` and `distributeEqual` return add up to it.
use native.Mathlib.Nat.{add-mul, suc-mul}
use mathlib.Core.Path.{subst}
use qisma_be.Prelude.{
  ℕ, zero, suc, ◌+◌, ◌*◌, ◌/◌, ◌≤◌, ◌<◌, ◌≡◌, refl, sym, ap, ◌∙◌, some, List, [], ◌∷◌, map, arith,
  length, get_or, sum,
}
use qisma_be.Prelude.Int.{ℤ, pos, negsuc, pos_part, neg_part, scaled}
use qisma_be.Prelude.Result.{ok}
use qisma_be.Splits.Decimal.{DecimalLib, IsExact}
use qisma_be.Splits.Rounding.Exact.{IsNearShare, distribute_exact}
use qisma_be.Splits.Debt.Transfers.{units, worth, speck, neg_part-zero}
use qisma_be.Splits.Money.{
  to_minor_units, from_minor_units, minor_weights, distribute_money_by_weights, ones,
  distribute_equal,
}

scaled_nonneg :
    (a : ℤ) (k : ℕ)
    → 0 < k
    → neg_part (scaled a k) ≡ 0
    → (n : ℕ) × (a ≡ pos n) × (n * k ≡ pos_part (scaled a k))
scaled_nonneg (pos n) k h e = (n, refl, ground arith)
scaled_nonneg (negsuc n) k h e = absurd (ground (arith, suc-mul n k))

-- The same weight so many times.
abbrev copies : ℕ → ℕ → List ℕ
copies zero m = []
copies (suc n) m = m ∷ copies n m

length-copies : (n m : ℕ) → length (copies n m) ≡ n
length-copies zero m = refl
length-copies (suc n) m = ap suc (length-copies n m)

get_or-copies : (n m i : ℕ) → i < n → get_or (copies n m) i 0 ≡ m
get_or-copies zero m i h = absurd (omega arith)
get_or-copies (suc n) m zero h = refl
get_or-copies (suc n) m (suc i) h = get_or-copies n m i (omega arith)

share_of :
    (k count m : ℕ) (ms : List ℕ)
    → IsNearShare k (copies count m) ms
    → (i : ℕ) → i < count
    → let share = k * m / sum (copies count m) in
      (share ≤ get_or ms i 0) × (get_or ms i 0 ≤ share + 1)
share_of k count m ms near i h =
    subst
      (λ z.
        let share = k * z / sum (copies count m) in
        (share ≤ get_or ms i 0) × (get_or ms i 0 ≤ share + 1))
      (get_or-copies count m i h) (near i (omega (arith, length-copies count m)))

shares_close :
    (k count m : ℕ) (ms : List ℕ)
    → IsNearShare k (copies count m) ms
    → (i j : ℕ) → i < count
    → j < count
    → get_or ms i 0 ≤ get_or ms j 0 + 1
shares_close k count m ms near i j a b =
    omega (arith, share_of k count m ms near i a, share_of k count m ms near j b)

module _ (lib : DecimalLib) (exact : IsExact lib) where
  open lib use {
    Decimal, Text, parse, to_string, to_dp, ten_pow, ten_pow_neg, div, mul, text_one, to_bigint,
    of_bigint,
  }
  open exact use {
    value, IsAt, parse-to_string, to_dp-IsAt, to_dp-eq, ten_pow_neg_positive, ten_pow_positive,
    ten_pow-IsAt, value-to_minor, value-of_minor, parse-text_one,
  }

  -- What a list of texts of amounts stands for.
  abbrev pub worth_of_all : List Text → ℕ
  worth_of_all [] = 0
  worth_of_all (t ∷ ts) = worth lib exact t + worth_of_all ts

  abbrev pub texts : ℕ → List ℕ → List Text
  texts scale ms = map (λ n. from_minor_units lib (pos n) scale) ms

  from_minor-worth :
      (m scale : ℕ)
      → scale ≤ 8
      → worth lib exact (from_minor_units lib (pos m) scale) ≡ m * speck lib exact scale
  unfolding from_minor_units
  from_minor-worth m scale h = ground (
    arith,
    parse-to_string (to_dp (div (of_bigint (pos m)) (ten_pow scale)) scale),
    value-of_minor scale m h,
  )

  -- Such a text is of a number that is not negative.
  pub from_minor-IsMoney :
      (m scale : ℕ)
      → scale ≤ 8
      → (d : Decimal) × (parse (from_minor_units lib (pos m) scale) ≡ some d)
        × (neg_part (value d) ≡ 0)
  unfolding from_minor_units
  from_minor-IsMoney m scale h =
      let d = to_dp (div (of_bigint (pos m)) (ten_pow scale)) scale in
      (d, parse-to_string d, ap neg_part (value-of_minor scale m h))

  pub texts-worth :
      (ms : List ℕ) (scale : ℕ)
      → scale ≤ 8
      → worth_of_all (texts scale ms) ≡ sum ms * speck lib exact scale
  texts-worth [] scale h = omega arith
  texts-worth (m ∷ ms) scale h =
      rw (add-mul m (sum ms) (speck lib exact scale))
        (omega (arith, from_minor-worth m scale h, texts-worth ms scale h))

  -- A text of an amount that is not negative at the scale, in minor units.
  pub to_minor_lem :
      (t : Text) (d : Decimal) (scale : ℕ)
      → scale ≤ 8
      → parse t ≡ some d
      → neg_part (value (to_dp d scale)) ≡ 0
      → (n : ℕ) × (to_minor_units lib t scale ≡ ok (pos n))
        × (n * speck lib exact scale ≡ units lib exact (to_dp d scale))
  unfolding to_minor_units
  to_minor_lem t d scale h p q =
      let e = value-to_minor scale (to_dp d scale) h (to_dp-IsAt d scale) in
      let (n, a, b) =
        scaled_nonneg (to_bigint (mul (to_dp d scale) (ten_pow scale))) (speck lib exact scale)
          (ten_pow_neg_positive scale) (ap neg_part (sym e) ∙ q) in
      (n, ground (arith, a), b ∙ ap pos_part (sym e))

  -- Money over weights whose minor units have a positive sum, in numbers that fit the 20 digits of
  -- decimal.js: the parts add up to exactly the total
  -- at the scale, each is its share of the minor units rounded down or one unit more, and there is
  -- one for each weight.
  pub distribute_money_exact :
      (total : Text) (d : Decimal) (ws : List Text) (ns : List ℕ) (scale : ℕ)
      → scale ≤ 8
      → parse total ≡ some d
      → neg_part (value (to_dp d scale)) ≡ 0
      → minor_weights lib ws scale ≡ ok ns
      → 0 < sum ns
      → (n : ℕ) × (ms : List ℕ) × (distribute_money_by_weights lib total ws scale
          ≡ ok (texts scale ms))
        × (length ms ≡ length ns)
        × (worth_of_all (texts scale ms) ≡ units lib exact (to_dp d scale))
        × IsNearShare n ns ms
  unfolding distribute_money_by_weights
  distribute_money_exact total d [] ns scale h p q w s = absurd (empty-none w)
    where
      empty-none : minor_weights lib [] scale ≡ ok ns → ⊥
      empty-none e = ground arith
  distribute_money_exact total d (t ∷ ws) ns scale h p q w s =
      let (n, a, b) = to_minor_lem total d scale h p q in
      let (ms, e, len, all, near) = distribute_exact n ns s in
      (
        n,
        ms,
        rw (w, a, e) refl,
        len,
        texts-worth ms scale h ∙ ap (λ z. z * speck lib exact scale) all ∙ b,
        near,
      )

  one_minor :
      (scale : ℕ) → scale ≤ 8 → (m : ℕ) × (0 < m) × (to_minor_units lib text_one scale ≡ ok (pos m))
  one_minor scale h =
      let one = ten_pow 0 in
      let same : to_dp one scale ≡ one = to_dp-eq one scale (ten_pow-IsAt scale 0 h) in
      let (n, e, u) =
        to_minor_lem text_one one scale h parse-text_one
          (ap (λ z. neg_part (value z)) same ∙ neg_part-zero (value one) (ten_pow_positive 0)) in
      (n, positive n (u ∙ ap (λ z. units lib exact z) same), e)
    where
      positive : (n : ℕ) → n * speck lib exact scale ≡ units lib exact (ten_pow 0) → 0 < n
      positive zero u = absurd (omega (arith, ten_pow_positive 0, u))
      positive (suc n) u = omega arith

  ones-copies :
      (n scale m : ℕ)
      → to_minor_units lib text_one scale ≡ ok (pos m)
      → minor_weights lib (ones lib n) scale ≡ ok (copies n m)
  unfolding minor_weights ones
  ones-copies zero scale m e = refl
  ones-copies (suc n) scale m e = rw (e, ones-copies n scale m e) refl

  -- `distributeEqual` for one or more, in numbers that fit the 20 digits of decimal.js: as many parts, which add up to exactly the total at the scale
  -- and of which no two differ by more than one unit.
  pub distribute_equal_exact :
      (total : Text) (d : Decimal) (count scale : ℕ)
      → scale ≤ 8
      → parse total ≡ some d
      → neg_part (value (to_dp d scale)) ≡ 0
      → 0 < count
      → (ms : List ℕ) × (distribute_equal lib total count scale ≡ ok (texts scale ms))
        × (length ms ≡ count)
        × (worth_of_all (texts scale ms) ≡ units lib exact (to_dp d scale))
        × ((i j : ℕ) → i < count → j < count → get_or ms i 0 ≤ get_or ms j 0 + 1)
  unfolding distribute_equal
  distribute_equal_exact total d zero scale h p q c = absurd (omega arith)
  distribute_equal_exact total d (suc n) scale h p q c =
      let (m, m_pos, em) = one_minor scale h in
      let (k, ms, e, len, all, near) =
        distribute_money_exact total d (ones lib (suc n)) (copies (suc n) m) scale h p q
          (ones-copies (suc n) scale m em) (omega (arith, m_pos)) in
      (ms, e, len ∙ length-copies (suc n) m, all, shares_close k (suc n) m ms near)
