-- ===== src/Splits/Decimal/Fixed.antt =====
-- A model of the decimal numbers that meets the laws: integers in units of 10^-8, with texts that
-- are the numbers themselves.
use native.Mathlib.Nat.{mul-add-div_right, div-eq_of_lt, add-zero, add-mul}
use mathlib.Core.Path.{ap₂}
use qisma_be.Prelude.{
  ℕ, ◌+◌, ◌-◌, ◌*◌, ◌/◌, ◌^◌, ◌≤◌, ◌<◌, ◌≡◌, refl, sym, ap, ◌∙◌, not, ◌&&◌, some, arith, ◌==◌,
  if◌then◌else◌,
}
use qisma_be.Prelude.Int.{ℤ, pos, pos_part, neg_part, sub_ℕ, scaled, ◌+ℤ◌, ◌-ℤ◌, leb_ℤ}
use qisma_be.Splits.Decimal.{DecimalLib, IsExact}
use qisma_be.Splits.Decimal.Units.{
  step, unit, step-unit, sub_ℕ_parts, sub-mul, pow_pos, of_parts, shift_up, nearest,
  nearest-shift_up, shift_down, shift_down_lem,
}

-- The multiple of `k` nearest to `m`, a tie upwards.
round : ℕ → ℕ → ℕ
round m k = (m + k / 2) / k * k

unfoldable pub to_dp : ℤ → ℕ → ℤ
unfolding round
to_dp d places = sub_ℕ (round (pos_part d) (step places)) (round (neg_part d) (step places))

abbrev pub fixed : DecimalLib
fixed = record {
  Decimal = ℤ;
  Text = ℤ;
  parse = some;
  to_string = λ d. d;
  nought = pos 0;
  add = ◌+ℤ◌;
  sub = ◌-ℤ◌;
  neg = λ a. pos 0 -ℤ a;
  min = λ a b. if leb_ℤ a b then a else b;
  lte = leb_ℤ;
  gt = λ a b. not (leb_ℤ a b);
  is_zero = λ a. pos_part a == 0 && neg_part a == 0;
  is_negative = λ a. not (leb_ℤ (pos 0) a);
  to_dp = to_dp;
  ten_pow_neg = λ places. pos (step places);
  ten_pow = λ places. pos (10 ^ places * unit);
  mul = λ a b.
      sub_ℕ ((pos_part a * pos_part b + neg_part a * neg_part b) / unit)
        ((pos_part a * neg_part b + neg_part a * pos_part b) / unit);
  div = λ a b. sub_ℕ (pos_part a * unit / pos_part b) (neg_part a * unit / pos_part b);
  abs = λ a. pos (pos_part a + neg_part a);
  to_bigint = λ a. sub_ℕ ((pos_part a + unit / 2) / unit) ((neg_part a + unit / 2) / unit);
  of_bigint = λ n. scaled n unit;
  eps = pos 10_000;
  hundredth = pos 1_000_000;
  hundred = pos (100 * unit);
  text_zero = pos 0;
  text_one = pos unit;
}

-- A multiple of `k`.
abbrev pub IsMultiple : ℕ → ℤ → Type 0
IsMultiple k v = (p : ℕ) × (n : ℕ) × (pos_part v ≡ p * k) × (neg_part v ≡ n * k)

sub_ℕ-IsMultiple : (k p n : ℕ) → IsMultiple k (sub_ℕ (p * k) (n * k))
sub_ℕ-IsMultiple k p n =
    let (a, b) = sub_ℕ_parts (p * k) (n * k) in
    (p - n, n - p, a ∙ sym (sub-mul p n k), b ∙ sym (sub-mul n p k))

pub step_pos : (places : ℕ) → 0 < step places
step_pos places = pow_pos (8 - places)

round_multiple : (p k : ℕ) → 0 < k → round (p * k) k ≡ p * k
unfolding round
round_multiple p k h =
    rw (mul-add-div_right h p (k / 2), div-eq_of_lt (half_lt k h), add-zero p) refl
  where
    half_lt : (m : ℕ) → 0 < m → m / 2 < m
    half_lt m q = omega arith

pub IsMultiple-sub : (k : ℕ) (a b : ℤ) → IsMultiple k a → IsMultiple k b → IsMultiple k (a -ℤ b)
unfolding ◌-ℤ◌
IsMultiple-sub k a b (p, n, ep, en) (q, m, eq, em) =
    let e : sub_ℕ ((p + m) * k) ((n + q) * k) ≡ a -ℤ b = sub_lem in
    rw e at (sub_ℕ-IsMultiple k (p + m) (n + q))
  where
    sub_lem : sub_ℕ ((p + m) * k) ((n + q) * k) ≡ a -ℤ b
    sub_lem =
        ap₂ sub_ℕ (add-mul p m k ∙ ap₂ ◌+◌ (sym ep) (sym em))
          (add-mul n q k ∙ ap₂ ◌+◌ (sym en) (sym eq))

pub IsMultiple-add : (k : ℕ) (a b : ℤ) → IsMultiple k a → IsMultiple k b → IsMultiple k (a +ℤ b)
unfolding ◌+ℤ◌
IsMultiple-add k a b (p, n, ep, en) (q, m, eq, em) =
    let e : sub_ℕ ((p + q) * k) ((n + m) * k) ≡ a +ℤ b =
      ap₂ sub_ℕ (add-mul p q k ∙ ap₂ ◌+◌ (sym ep) (sym eq))
        (add-mul n m k ∙ ap₂ ◌+◌ (sym en) (sym em)) in
    rw e at (sub_ℕ-IsMultiple k (p + q) (n + m))

pub to_dp-IsMultiple : (d : ℤ) (places : ℕ) → IsMultiple (step places) (to_dp d places)
unfolding to_dp
to_dp-IsMultiple d places =
    let k = step places in sub_ℕ-IsMultiple k ((pos_part d + k / 2) / k) ((neg_part d + k / 2) / k)

pub to_dp-eq : (d : ℤ) (places : ℕ) → IsMultiple (step places) d → to_dp d places ≡ d
unfolding to_dp
to_dp-eq d places (p, n, ep, en) =
    ap₂ sub_ℕ (whole (pos_part d) p ep) (whole (neg_part d) n en) ∙ of_parts d
  where
    whole : (m q : ℕ) → m ≡ q * step places → round m (step places) ≡ m
    whole m q e = rw e (round_multiple q (step places) (step_pos places))

pub power_pos : (places : ℕ) → 0 < 10 ^ places * unit
power_pos places = omega (arith, pow_pos places)

pub power-IsMultiple : (places n : ℕ) → places ≤ 8 → IsMultiple (step places) (pos (10 ^ n * unit))
power-IsMultiple places n h =
    (10 ^ n * 10 ^ places, 0, omega (arith, ap (λ z. 10 ^ n * z) (step-unit places h)), omega arith)

pub to_minor_lem :
    (places : ℕ) (d : ℤ)
    → places ≤ 8
    → IsMultiple (step places) d
    → d ≡ scaled (fixed.to_bigint (fixed.mul d (fixed.ten_pow places))) (step places)
unfolding shift_up nearest
to_minor_lem places d h (p, n, ep, en) = nearest-shift_up d places p n h ep en

pub of_minor_lem :
    (places m : ℕ)
    → places ≤ 8
    → to_dp (fixed.div (fixed.of_bigint (pos m)) (fixed.ten_pow places)) places
      ≡ pos (m * step places)
unfolding shift_down
of_minor_lem places m h =
    ap (λ d. to_dp d places) (shift_down_lem m places h)
    ∙ to_dp-eq (pos (m * step places)) places (m, 0, refl, omega arith)

abbrev pub Fixed-IsExact : IsExact fixed
Fixed-IsExact = record {
  value = λ d. d;
  IsAt = λ places. IsMultiple (step places);
  parse-to_string = λ d. refl;
  value-nought = refl;
  value-add = λ a b. refl;
  value-sub = λ a b. refl;
  value-neg = λ a. refl;
  min_lem = λ a b. refl;
  lte-value = λ a b. refl;
  gt-value = λ a b. refl;
  is_zero-value = λ a. refl;
  is_negative-value = λ a. refl;
  to_dp-IsAt = to_dp-IsMultiple;
  to_dp-eq = to_dp-eq;
  sub-IsAt = λ places. IsMultiple-sub (step places);
  add-IsAt = λ places. IsMultiple-add (step places);
  nought-IsAt = λ places. (0, 0, omega arith, omega arith);
  neg-IsAt = λ places a. IsMultiple-sub (step places) (pos 0) a (0, 0, omega arith, omega arith);
  ten_pow_neg_positive = step_pos;
  ten_pow_positive = power_pos;
  ten_pow-IsAt = power-IsMultiple;
  value-to_minor = to_minor_lem;
  value-of_minor = of_minor_lem;
  value-abs = λ a. refl;
  eps_nonneg = refl;
  parse-text_zero = refl;
  parse-text_one = refl;
}
