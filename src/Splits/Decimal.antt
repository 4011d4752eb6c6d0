-- ===== src/Splits/Decimal.antt =====
-- What the split engines use of the package decimal.js, which is not part of the repository: the
-- numbers, the texts that they are read from and printed to, and the operations.
pub mod Units
pub mod Fixed
use qisma_be.Prelude.{
  ℕ, ◌+◌, ◌*◌, ◌≤◌, ◌<◌, ◌≡◌, Bool, not, ◌&&◌, Option, none, some, ◌==◌, if◌then◌else◌,
}
use qisma_be.Prelude.Int.{ℤ, pos, pos_part, neg_part, scaled, leb_ℤ, ◌+ℤ◌, ◌-ℤ◌}

pub record DecimalLib : Type 1 where
  pub Decimal : Type 0
  pub Text : Type 0
  -- `new Decimal(text)`; `none` is the error that it throws.
  pub parse : Text → Option Decimal
  -- `d.toString()`
  pub to_string : Decimal → Text
  -- `new Decimal(0)`
  pub nought : Decimal
  pub add : Decimal → Decimal → Decimal
  pub sub : Decimal → Decimal → Decimal
  pub neg : Decimal → Decimal
  pub min : Decimal → Decimal → Decimal
  pub lte : Decimal → Decimal → Bool
  pub gt : Decimal → Decimal → Bool
  pub is_zero : Decimal → Bool
  pub is_negative : Decimal → Bool
  -- `d.toDP(places, Decimal.ROUND_HALF_UP)`
  pub to_dp : Decimal → ℕ → Decimal
  -- `new Decimal(10).pow(-places)`
  pub ten_pow_neg : ℕ → Decimal
  -- `new Decimal(10).pow(places)`
  pub ten_pow : ℕ → Decimal
  pub mul : Decimal → Decimal → Decimal
  pub div : Decimal → Decimal → Decimal
  pub abs : Decimal → Decimal
  -- `BigInt(d.toFixed(0, Decimal.ROUND_HALF_UP))`
  pub to_bigint : Decimal → ℤ
  -- `new Decimal(n.toString())`
  pub of_bigint : ℤ → Decimal
  -- `new Decimal('0.0001')`, `new Decimal('0.01')` and `new Decimal(100)`
  pub eps : Decimal
  pub hundredth : Decimal
  pub hundred : Decimal
  -- The texts `'0'` and `'1'`.
  pub text_zero : Text
  pub text_one : Text

module _ (lib : DecimalLib) where
  open lib use {
    Decimal, Text, parse, to_string, nought, add, sub, neg, min, lte, gt, is_zero, is_negative,
    to_dp, ten_pow_neg, ten_pow, mul, div, abs, to_bigint, of_bigint, eps, text_zero, text_one,
  }

  -- The documented behaviour that the results rest on, for numbers whose digits fit the precision of
  -- the package (20 significant digits; a column of money has 19): sums and differences are exact.
  -- `value` counts a number in units of its last digit, whatever that is.
  pub record IsExact : Type 1 where
    pub value : Decimal → ℤ
    -- At most so many decimal places.
    pub IsAt : ℕ → Decimal → Type 0
    pub parse-to_string : (d : Decimal) → parse (to_string d) ≡ some d
    pub value-nought : value nought ≡ pos 0
    pub value-add : (a b : Decimal) → value (add a b) ≡ value a +ℤ value b
    pub value-sub : (a b : Decimal) → value (sub a b) ≡ value a -ℤ value b
    pub value-neg : (a : Decimal) → value (neg a) ≡ pos 0 -ℤ value a
    pub min_lem : (a b : Decimal) → min a b ≡ (if lte a b then a else b)
    pub lte-value : (a b : Decimal) → lte a b ≡ leb_ℤ (value a) (value b)
    pub gt-value : (a b : Decimal) → gt a b ≡ not (leb_ℤ (value a) (value b))
    pub is_zero-value :
        (a : Decimal) → is_zero a ≡ (pos_part (value a) == 0 && neg_part (value a) == 0)
    pub is_negative-value : (a : Decimal) → is_negative a ≡ not (leb_ℤ (pos 0) (value a))
    pub to_dp-IsAt : (d : Decimal) (places : ℕ) → IsAt places (to_dp d places)
    pub to_dp-eq : (d : Decimal) (places : ℕ) → IsAt places d → to_dp d places ≡ d
    pub sub-IsAt :
        (places : ℕ) (a b : Decimal) → IsAt places a → IsAt places b → IsAt places (sub a b)
    pub add-IsAt :
        (places : ℕ) (a b : Decimal) → IsAt places a → IsAt places b → IsAt places (add a b)
    pub nought-IsAt : (places : ℕ) → IsAt places nought
    pub neg-IsAt : (places : ℕ) (a : Decimal) → IsAt places a → IsAt places (neg a)
    pub ten_pow_neg_positive : (places : ℕ) → 0 < pos_part (value (ten_pow_neg places))
    pub ten_pow_positive : (places : ℕ) → 0 < pos_part (value (ten_pow places))
    pub ten_pow-IsAt : (places n : ℕ) → places ≤ 8 → IsAt places (ten_pow n)
    -- A number of at most so many places is a whole number of units of that place, and the code
    -- finds how many.
    pub value-to_minor :
        (places : ℕ) (d : Decimal)
        → places ≤ 8
        → IsAt places d
        → value d
          ≡ scaled (to_bigint (mul d (ten_pow places))) (pos_part (value (ten_pow_neg places)))
    pub value-of_minor :
        (places m : ℕ)
        → places ≤ 8
        → value (to_dp (div (of_bigint (pos m)) (ten_pow places)) places)
          ≡ pos (m * pos_part (value (ten_pow_neg places)))
    pub value-abs : (a : Decimal) → value (abs a) ≡ pos (pos_part (value a) + neg_part (value a))
    pub eps_nonneg : neg_part (value eps) ≡ 0
    pub parse-text_zero : parse text_zero ≡ some nought
    pub parse-text_one : parse text_one ≡ some (ten_pow 0)
