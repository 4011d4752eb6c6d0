-- ===== src/Splits/Money.antt =====
-- src/modules/splits/rounding.engine.ts, the functions on texts of amounts: minor units and back, and
-- the distribution of money. A scale is a natural number.
pub mod Exact
mod Tests
use qisma_be.Prelude.{
  ℕ, zero, suc, Bool, not, Option, none, some, List, [], ◌∷◌, map, leb, if◌then◌else◌,
}
use qisma_be.Prelude.Int.{ℤ, pos, negsuc, pos_part, neg_part}
use qisma_be.Prelude.Result.{Result, ok, err, ◌>>=◌, ◌>>◌, throw_if}
use qisma_be.Splits.Decimal.{DecimalLib}
use qisma_be.Splits.Rounding.{RoundingError, distribute_minor_by_weights}

pub data MoneyError : Type 0 where
  scale_out_of_range not_a_number weights_negative count_not_positive : MoneyError
  rounding : RoundingError → MoneyError

abbrev lift : {A : Type 0} → Result RoundingError A → Result MoneyError A
lift (ok a) = ok a
lift (err e) = err (rounding e)

-- A weight is a `bigint` that has been checked not to be negative.
abbrev natural : ℤ → Result MoneyError ℕ
natural (pos n) = ok n
natural (negsuc n) = err weights_negative

module _ (lib : DecimalLib) where
  open lib use {
    Decimal, Text, parse, to_string, neg, to_dp, ten_pow, mul, div, to_bigint, of_bigint, text_one,
  }

  -- `new Decimal(text)`
  abbrev pub number : Text → Result MoneyError Decimal
  number t = elim (parse t) [ none ↦ err not_a_number | some d ↦ ok d ]

  unfoldable pub to_minor_units : Text → ℕ → Result MoneyError ℤ
  to_minor_units amount scale = do
    throw_if (not (leb scale 8)) scale_out_of_range
    x ← number amount
    ok (to_bigint (mul (to_dp x scale) (ten_pow scale)))

  unfoldable pub from_minor_units : ℤ → ℕ → Text
  from_minor_units (pos n) scale = to_string (to_dp (div (of_bigint (pos n)) (ten_pow scale)) scale)
  from_minor_units (negsuc n) scale =
      to_string (to_dp (neg (div (of_bigint (pos (suc n))) (ten_pow scale))) scale)

  -- `weights.map(...)`, which throws at the first weight that is negative or no number.
  pub minor_weights : List Text → ℕ → Result MoneyError (List ℕ)
  minor_weights [] scale = ok []
  minor_weights (w ∷ ws) scale =
      let rest = minor_weights ws scale in
      do m ← to_minor_units w scale; n ← natural m; ns ← rest; ok (n ∷ ns)

  unfoldable pub distribute_money_by_weights : Text → List Text → ℕ → Result MoneyError (List Text)
  unfolding minor_weights
  distribute_money_by_weights total [] scale = ok []
  distribute_money_by_weights total (w ∷ ws) scale = do
    ns ← minor_weights (w ∷ ws) scale
    m ← to_minor_units total scale
    parts ← lift (distribute_minor_by_weights m ns)
    ok (map (λ n. from_minor_units (pos n) scale) parts)

  -- `Array.from({ length: count }, () => '1')`
  pub ones : ℕ → List Text
  ones zero = []
  ones (suc n) = text_one ∷ ones n

  unfoldable pub distribute_equal : Text → ℕ → ℕ → Result MoneyError (List Text)
  unfolding ones
  distribute_equal total zero scale = err count_not_positive
  distribute_equal total (suc n) scale = distribute_money_by_weights total (ones (suc n)) scale
