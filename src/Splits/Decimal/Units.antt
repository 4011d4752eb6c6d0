-- ===== src/Splits/Decimal/Units.antt =====
-- Arithmetic for `Fixed`: the units of a decimal place, and scaling by a power of ten and back.
use native.Mathlib.Nat.{
  mul_comm, mul_assoc, mul-sub, mul-div_cancel, div-eq_of_eq-mul_right, pow-suc,
}
use mathlib.Core.Path.{ap₂}
use qisma_be.Prelude.{
  ℕ, zero, suc, ◌+◌, ◌-◌, ◌*◌, ◌/◌, ◌^◌, ◌≤◌, ◌<◌, ◌≡◌, refl, sym, ap, ◌∙◌, arith,
}
use qisma_be.Prelude.Int.{ℤ, pos, pos_part, neg_part, sub_ℕ, scaled}

-- The units of 10^-places.
abbrev pub step : ℕ → ℕ
step places = 10 ^ (8 - places)

-- The number 1.
abbrev pub unit : ℕ
unit = 10 ^ 8

pub step-unit : (places : ℕ) → places ≤ 8 → step places * 10 ^ places ≡ unit
step-unit zero h = refl
step-unit (suc zero) h = refl
step-unit (suc (suc zero)) h = refl
step-unit (suc (suc (suc zero))) h = refl
step-unit (suc (suc (suc (suc zero)))) h = refl
step-unit (suc (suc (suc (suc (suc zero))))) h = refl
step-unit (suc (suc (suc (suc (suc (suc zero)))))) h = refl
step-unit (suc (suc (suc (suc (suc (suc (suc zero))))))) h = refl
step-unit (suc (suc (suc (suc (suc (suc (suc (suc zero)))))))) h = refl
step-unit (suc (suc (suc (suc (suc (suc (suc (suc (suc n))))))))) h = absurd (omega arith)

regroup : (p k t u : ℕ) → k * t ≡ u → p * k * t ≡ p * u
regroup p k t u e = mul_assoc p k t ∙ ap (λ z. p * z) e

-- `mul` by a power of ten.
unfoldable pub shift_up : ℤ → ℕ → ℤ
shift_up a places =
    let t = 10 ^ places * unit in
    sub_ℕ ((pos_part a * t + neg_part a * 0) / unit) ((pos_part a * 0 + neg_part a * t) / unit)

-- `to_bigint`
unfoldable pub nearest : ℤ → ℤ
nearest a = sub_ℕ ((pos_part a + unit / 2) / unit) ((neg_part a + unit / 2) / unit)

pub sub_ℕ_parts : (a b : ℕ) → (pos_part (sub_ℕ a b) ≡ a - b) × (neg_part (sub_ℕ a b) ≡ b - a)
sub_ℕ_parts a b = (ground arith, ground arith)

pub sub-mul : (p n k : ℕ) → (p - n) * k ≡ p * k - n * k
sub-mul p n k = mul_comm (p - n) k ∙ mul-sub k p n ∙ ap₂ ◌-◌ (mul_comm k p) (mul_comm k n)

pub of_parts : (a : ℤ) → sub_ℕ (pos_part a) (neg_part a) ≡ a
of_parts a = ground arith

over_unit : (x t : ℕ) → x * (t * unit) / unit ≡ x * t
over_unit x t = ap (λ z. z / unit) (sym (mul_assoc x t unit)) ∙ mul-div_cancel (x * t) (omega arith)

shift_up_lem :
    (a : ℤ) (places : ℕ)
    → shift_up a places ≡ sub_ℕ (pos_part a * 10 ^ places) (neg_part a * 10 ^ places)
unfolding shift_up
shift_up_lem a places =
    ap₂ sub_ℕ (ap (λ z. z / unit) (omega arith) ∙ over_unit (pos_part a) (10 ^ places))
      (ap (λ z. z / unit) (omega arith) ∙ over_unit (neg_part a) (10 ^ places))

nearest-units : (p n : ℕ) → nearest (sub_ℕ (p * unit) (n * unit)) ≡ sub_ℕ p n
unfolding nearest
nearest-units p n = ground arith

scaled-sub_ℕ : (p n k : ℕ) → scaled (sub_ℕ p n) k ≡ sub_ℕ (p * k) (n * k)
scaled-sub_ℕ p n k =
    let (e, f) = sub_ℕ_parts p n in
    ap₂ sub_ℕ (ap (λ z. z * k) e ∙ sub-mul p n k) (ap (λ z. z * k) f ∙ sub-mul n p k)
    ∙ sub_ℕ_sub (p * k) (n * k)
  where
    sub_ℕ_sub : (x y : ℕ) → sub_ℕ (x - y) (y - x) ≡ sub_ℕ x y
    sub_ℕ_sub x y = ground arith

-- A number of so many places, scaled to minor units, is the number of its units.
pub nearest-shift_up :
    (a : ℤ) (places p n : ℕ)
    → places ≤ 8
    → pos_part a ≡ p * step places
    → neg_part a ≡ n * step places
    → a ≡ scaled (nearest (shift_up a places)) (step places)
nearest-shift_up a places p n h ep en =
    let k = step places in
    let t = 10 ^ places in
    let u = step-unit places h in
    let up : shift_up a places ≡ sub_ℕ (p * unit) (n * unit) =
      shift_up_lem a places
      ∙ ap₂ sub_ℕ (ap (λ z. z * t) ep ∙ regroup p k t unit u)
          (ap (λ z. z * t) en ∙ regroup n k t unit u) in
    sym (of_parts a)
    ∙ ap₂ sub_ℕ ep en
    ∙ sym (scaled-sub_ℕ p n k)
    ∙ ap (λ z. scaled z k) (sym (ap nearest up ∙ nearest-units p n))

pub pow_pos : (n : ℕ) → 0 < 10 ^ n
pow_pos zero = omega arith
pow_pos (suc n) = rw (pow-suc 10 n) (omega (arith, pow_pos n))

quotient_units :
    (places m : ℕ) → places ≤ 8 → m * unit * unit / (10 ^ places * unit) ≡ m * step places
quotient_units places m h =
    div-eq_of_eq-mul_right (omega (arith, pow_pos places))
      (omega (arith, ap (λ z. m * z) (step-unit places h)))

-- `div` of minor units by the power of ten.
unfoldable pub shift_down : ℕ → ℕ → ℤ
shift_down m places =
    let a = scaled (pos m) unit in
    sub_ℕ (pos_part a * unit / (10 ^ places * unit)) (neg_part a * unit / (10 ^ places * unit))

pub shift_down_lem : (m places : ℕ) → places ≤ 8 → shift_down m places ≡ pos (m * step places)
unfolding shift_down
shift_down_lem m places h =
    let z = quotient_units places 0 h in
    let q = quotient_units places m h in
    let e : scaled (pos m) unit ≡ pos (m * unit) = ground arith in
    ap
      (λ a.
        sub_ℕ (pos_part a * unit / (10 ^ places * unit)) (neg_part a * unit / (10 ^ places * unit)))
      e
    ∙ ap₂ sub_ℕ q z
    ∙ ground arith
