-- ===== src/Splits/Shares.antt =====
-- src/modules/splits/expense-split.service.ts: the inputs and results of `compute`, and what the six
-- ways to split share. User ids,
-- currencies and labels are numbers; an object from ids to texts is the list of its entries, and a
-- `Map` the list of its entries in the order of insertion.
pub mod Ways
pub mod Exact
pub mod Checked
pub mod Within
pub mod Users
pub mod Named
pub mod Fine
mod Tests
use qisma_be.Prelude.{
  ℕ, suc, Bool, true, false, not, ◌&&◌, ◌||◌, Option, none, some, List, [], ◌∷◌, map, ◌==◌,
  if◌then◌else◌, length, keep,
}
use qisma_be.Prelude.Result.{Result, ok, err, ◌>>=◌, ◌>>◌, throw_if}
use qisma_be.Splits.Decimal.{DecimalLib}
use qisma_be.Splits.Money.{
  MoneyError, number, to_minor_units, distribute_money_by_weights, distribute_equal,
}

-- What `compute` throws, in the order of the source.
pub data SplitError : Type 0 where
  money : MoneyError → SplitError
  no_participant no_amount amounts_not_total percentages_not_hundred : SplitError
  share_not_positive shares_not_positive users_overlap no_remainder_user : SplitError
  fixed_exceed_total remainder_negative no_participants_at_all : SplitError
  user_outside_group line_without_participants lines_not_total : SplitError
  sum_not_total : SplitError

-- `EXPENSE_SPLIT_TYPE`
pub data SplitType : Type 0 where
  equal exact percentage shares adjustment itemized : SplitType

abbrev pub lift : {A : Type 0} → Result MoneyError A → Result SplitError A
lift (ok a) = ok a
lift (err e) = err (money e)

abbrev pub contains : ℕ → List ℕ → Bool
contains id [] = false
contains id (x ∷ xs) = x == id || contains id xs

-- `[...new Set(ids)]`: each id where it stands first.
pub unique_from : List ℕ → List ℕ → List ℕ
unique_from seen [] = []
unique_from seen (x ∷ xs) =
    let rest = unique_from (x ∷ seen) xs in
    let skip = unique_from seen xs in if contains x seen then skip else x ∷ rest

abbrev pub unique : List ℕ → List ℕ
unique ids = unique_from [] ids

-- Whether an id of the second list is in the first.
abbrev pub overlap : List ℕ → List ℕ → Bool
overlap fixed [] = false
overlap fixed (u ∷ us) = contains u fixed || overlap fixed us

-- Whether every id of the second list is in the first.
abbrev pub covers : List ℕ → List ℕ → Bool
covers all [] = true
covers all (u ∷ us) = contains u all && covers all us

-- `ItemizedLineInput`; no list of participants is the empty one.
pub record Line (T : Type 0) : Type 0 where
  pub amount : T
  pub participants : List ℕ
  pub everyone : Bool

-- `ExpenseSplitComputationInput` without what all six have.
pub data SplitInput (T : Type 0) : Type 0 where
  equal : List ℕ → SplitInput T
  exact percentage shares : List (ℕ × T) → SplitInput T
  adjustment : List (ℕ × T) → List ℕ → SplitInput T
  itemized : List ℕ → List (Line T) → SplitInput T

-- `ParticipantOwedShare`
pub record Share (T : Type 0) : Type 0 where
  pub user_id : ℕ
  pub owed_amount : T
  pub percentage : Option T
  pub shares : Option T

-- `SplitComputationResult`
pub record SplitResult (T : Type 0) : Type 0 where
  pub split_type : SplitType
  pub participant_shares : List (Share T)
  pub sum_owed : T
  pub currency : ℕ
  pub scale : ℕ

-- `map.set(id, f(map.get(id)))`: a new id goes to the end.
abbrev pub update : {V : Type 0} → ℕ → (Option V → V) → List (ℕ × V) → List (ℕ × V)
update id f [] = (id, f none) ∷ []
update id f ((k, v) ∷ es) =
    let rest = update id f es in if k == id then (k, f (some v)) ∷ es else (k, v) ∷ rest

module _ (lib : DecimalLib) where
  open lib use {
    Decimal, Text, to_string, nought, add, sub, abs, lte, gt, to_dp, eps, hundredth, hundred,
    text_zero,
  }

  abbrev pub decimal : Text → Result SplitError Decimal
  decimal t = lift (number lib t)

  -- `sum = sum.add(D(text))` over the texts.
  pub sum_texts : Decimal → List Text → Result SplitError Decimal
  sum_texts sum [] = ok sum
  sum_texts sum (t ∷ ts) =
      let rest = λ (d : Decimal). sum_texts (add sum d) ts in do d ← decimal t; rest d

  -- `a.sub(b).abs().lte(tolerance)`
  abbrev pub near : Decimal → Decimal → Decimal → Bool
  near tolerance a b = lte (abs (sub a b)) tolerance

  -- `D(text).toDP(scale).toString()`
  abbrev pub rounded_text : ℕ → Decimal → Text
  rounded_text scale d = to_string (to_dp d scale)

  -- `ids.map((userId, i) => ({userId, owedAmount: parts[i] ?? '0' }))`
  abbrev pub plain_shares : List ℕ → List Text → List (Share Text)
  plain_shares [] parts = []
  plain_shares (id ∷ ids) [] =
      record { user_id = id; owed_amount = text_zero; percentage = none; shares = none }
      ∷ plain_shares ids []
  plain_shares (id ∷ ids) (t ∷ ts) =
      record { user_id = id; owed_amount = t; percentage = none; shares = none }
      ∷ plain_shares ids ts

  -- The internal check on the sum, and the result.
  unfoldable pub wrap :
      SplitType → List (Share Text) → Text → ℕ → ℕ → Result SplitError (SplitResult Text)
  unfolding sum_texts
  wrap type owed total currency scale = do
    sum ← sum_texts nought (map (λ p. p.owed_amount) owed)
    t ← decimal total
    throw_if (not (near eps sum t)) sum_not_total
    _ ← lift (to_minor_units lib total scale)
    ok (record {
      split_type = type;
      participant_shares = owed;
      sum_owed = rounded_text scale sum;
      currency = currency;
      scale = scale;
    })
