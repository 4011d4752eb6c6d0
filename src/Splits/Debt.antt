-- ===== src/Splits/Debt.antt =====
-- src/modules/splits/debt-simplification.service.ts. User ids are only compared, so they are
-- numbers; an object from ids to amounts is the list of its entries.
pub mod Transfers
pub mod Conserve
pub mod Simplify
mod Tests
use mathlib.Core.Option
use qisma_be.Prelude.{
  ℕ, zero, suc, ◌+◌, Bool, true, false, Option, none, some, List, [], ◌∷◌, if◌then◌else◌, length,
}
use qisma_be.Prelude.Sort.{sort}
use qisma_be.Splits.Decimal.{DecimalLib}

-- `{ id, amt }`
pub record Party (D : Type 0) : Type 0 where
  pub id : ℕ
  pub amt : D

-- `SimplifiedTransfer`
pub record Transfer (T : Type 0) : Type 0 where
  pub from_user_id : ℕ
  pub to_user_id : ℕ
  pub amount : T

module _ (lib : DecimalLib) where
  open lib use {
    Decimal, Text, parse, to_string, sub, neg, min, lte, gt, is_zero, is_negative, to_dp,
    ten_pow_neg,
  }

  abbrev pub Parties : Type 0
  Parties = List (Party Decimal)

  abbrev pub Transfers : Type 0
  Transfers = List (Transfer Text)

  -- One entry, with its amount rounded: skipped, or put before the debtors or the creditors that
  -- the entries behind it give.
  place : ℕ → Decimal → Parties × Parties → Parties × Parties
  place id v (debtors, creditors) =
      if is_zero v
      then (debtors, creditors)
      else if is_negative v
      then (record { id = id; amt = neg v } ∷ debtors, creditors)
      else (debtors, record { id = id; amt = v } ∷ creditors)

  -- The `for` loop over the entries. `none`: a text is no number.
  unfoldable pub classify : List (ℕ × Text) → ℕ → Option (Parties × Parties)
  unfolding place
  classify [] scale = some ([], [])
  classify ((id, raw) ∷ entries) scale =
      let rest = classify entries scale in
      elim (parse raw) [
        | none ↦ none
        | some d ↦ elim rest [ none ↦ none | some r ↦ some (place id (to_dp d scale) r) ]
      ]

  -- `b.amt.cmp(a.amt)` is not positive: the larger amount first.
  by_amount : Party Decimal → Party Decimal → Bool
  by_amount a b = lte b.amt a.amt

  module _ (scale : ℕ) where
    abbrev dust : Decimal
    dust = ten_pow_neg scale

    abbrev is_dust : Decimal → Bool
    is_dust d = lte d dust

    -- A party whose amount has fallen by `pay`, unless dust is left of it.
    unfoldable pub after : Decimal → Party Decimal → Parties → Parties
    after pay p ps =
        let left = sub p.amt pay in
        if is_dust left then ps else record { id = p.id; amt = left } ∷ ps

    unfoldable pub emit : Decimal → Party Decimal → Party Decimal → Transfers → Transfers
    emit pay d c out =
        if gt pay dust
        then record { from_user_id = d.id; to_user_id = c.id; amount = to_string pay } ∷ out
        else out

    -- The `while` loop, on the debtors and creditors that are left. `none`: the fuel ran out.
    unfoldable pub settle : ℕ → Parties → Parties → Option Transfers
    settle fuel [] creditors = some []
    settle fuel (d ∷ ds) [] = some []
    settle zero (d ∷ ds) (c ∷ cs) = none
    settle (suc fuel) (d ∷ ds) (c ∷ cs) =
        let next_debtor = settle fuel ds (c ∷ cs) in
        let next_creditor = settle fuel (d ∷ ds) cs in
        let pay = to_dp (min d.amt c.amt) scale in
        let rest = settle fuel (after pay d ds) (after pay c cs) in
        if is_dust d.amt
        then next_debtor
        else if is_dust c.amt
        then next_creditor
        else Option.map (emit pay d c) rest

  -- `simplify`: the loop ends after as many rounds as there are parties.
  unfoldable pub simplify : List (ℕ × Text) → ℕ → Option Transfers
  unfolding by_amount
  simplify net scale = elim (classify net scale) [
    | none ↦ none
    | some (debtors, creditors) ↦
        settle scale (length debtors + length creditors) (sort by_amount debtors)
          (sort by_amount creditors)
  ]
