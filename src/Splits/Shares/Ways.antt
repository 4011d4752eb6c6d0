-- ===== src/Splits/Shares/Ways.antt =====
-- src/modules/splits/expense-split.service.ts: the six ways to split an expense, and `compute`.
-- `id_le` orders user ids as `localeCompare` does.
use qisma_be.Prelude.{
  ℕ, Bool, not, Option, none, some, List, [], ◌∷◌, map, ◌==◌, if◌then◌else◌, length,
}
use qisma_be.Prelude.Sort.{sort}
use qisma_be.Prelude.Result.{Result, ok, err, ◌>>=◌, ◌>>◌, throw_if}
use qisma_be.Splits.Decimal.{DecimalLib}
use qisma_be.Splits.Money.{distribute_money_by_weights, distribute_equal}
use qisma_be.Splits.Shares.{
  SplitError, no_participant, no_amount, amounts_not_total, percentages_not_hundred,
  share_not_positive, shares_not_positive, users_overlap, no_remainder_user, fixed_exceed_total,
  remainder_negative, no_participants_at_all, user_outside_group, line_without_participants,
  lines_not_total, SplitType, SplitInput, equal, exact, percentage, shares, adjustment, itemized,
  Line, Share, SplitResult, lift, unique, overlap, covers, update, decimal, sum_texts, near,
  rounded_text, plain_shares, wrap,
}

module _ (lib : DecimalLib) where
  open lib use {
    Decimal, Text, to_string, nought, add, sub, lte, gt, eps, hundredth, hundred, text_zero,
  }

  unfoldable pub split_equal : List ℕ → Text → ℕ → ℕ → Result SplitError (SplitResult Text)
  split_equal participants total currency scale = do
    throw_if (length (unique participants) == 0) no_participant
    parts ← lift (distribute_equal lib total (length (unique participants)) scale)
    wrap lib SplitType.equal (plain_shares lib (unique participants) parts) total currency scale

  -- The amounts of the entries, rounded to the scale.
  unfoldable pub exact_shares : ℕ → List (ℕ × Text) → Result SplitError (List (Share Text))
  exact_shares scale [] = ok []
  exact_shares scale ((id, amt) ∷ es) =
      let rest = exact_shares scale es in
      do
        d ← decimal lib amt
        more ← rest
        ok (
            record {
              user_id = id;
              owed_amount = rounded_text lib scale d;
              percentage = none;
              shares = none;
            }
            ∷ more)

  unfoldable pub split_exact : List (ℕ × Text) → Text → ℕ → ℕ → Result SplitError (SplitResult Text)
  unfolding exact_shares sum_texts
  split_exact entries total currency scale = do
    throw_if (length entries == 0) no_amount
    sum ← sum_texts lib nought (map (λ e. e.1) entries)
    t ← decimal lib total
    throw_if (not (near lib eps sum t)) amounts_not_total
    owed ← exact_shares scale entries
    wrap lib SplitType.exact owed total currency scale

  -- `D(text).toString()` of the entry's own text, put on the share of the same place.
  unfoldable pub annotate :
      (Text → Share Text → Share Text)
      → List (ℕ × Text)
      → List (Share Text)
      → Result SplitError (List (Share Text))
  annotate f [] ps = ok []
  annotate f (e ∷ es) [] = ok []
  annotate f ((id, raw) ∷ es) (p ∷ ps) =
      let rest = annotate f es ps in
      do d ← decimal lib raw; more ← rest; ok (f (to_string d) p ∷ more)

  unfoldable pub split_percentage :
      List (ℕ × Text) → Text → ℕ → ℕ → Result SplitError (SplitResult Text)
  unfolding sum_texts annotate
  split_percentage entries total currency scale = do
    throw_if (length entries == 0) no_participant
    sum ← sum_texts lib nought (map (λ e. e.1) entries)
    throw_if (not (near lib hundredth sum hundred)) percentages_not_hundred
    parts ← lift (distribute_money_by_weights lib total (map (λ e. e.1) entries) scale)
    owed ←
        annotate (λ t p. record p { percentage = some t }) entries
          (plain_shares lib (map (λ e. e.0) entries) parts)
    wrap lib SplitType.percentage owed total currency scale

  -- The sum of the shares, each of which must be positive.
  pub sum_shares : Decimal → List (ℕ × Text) → Result SplitError Decimal
  sum_shares sum [] = ok sum
  sum_shares sum ((id, t) ∷ es) =
      let rest = λ (d : Decimal). sum_shares (add sum d) es in
      do d ← decimal lib t; throw_if (lte d nought) share_not_positive; rest d

  unfoldable pub split_shares :
      List (ℕ × Text) → Text → ℕ → ℕ → Result SplitError (SplitResult Text)
  unfolding sum_shares annotate
  split_shares entries total currency scale = do
    throw_if (length entries == 0) no_participant
    sum ← sum_shares nought entries
    throw_if (lte sum nought) shares_not_positive
    parts ← lift (distribute_money_by_weights lib total (map (λ e. e.1) entries) scale)
    owed ←
        annotate (λ t p. record p { shares = some t }) entries
          (plain_shares lib (map (λ e. e.0) entries) parts)
    wrap lib SplitType.shares owed total currency scale

  -- `map.set(id, (map.get(id) ?? 0).add(d))`
  abbrev pub add_to : ℕ → Decimal → List (ℕ × Decimal) → List (ℕ × Decimal)
  add_to id d = update id (λ v. elim v [ none ↦ add nought d | some x ↦ add x d ])

  -- The parts of an amount, each added to the account of the id of the same place.
  unfoldable pub add_parts :
      List ℕ → List Text → List (ℕ × Decimal) → Result SplitError (List (ℕ × Decimal))
  add_parts [] parts acc = ok acc
  add_parts (id ∷ ids) [] acc =
      let rest = λ (d : Decimal). add_parts ids [] (add_to id d acc) in
      do d ← decimal lib text_zero; rest d
  add_parts (id ∷ ids) (t ∷ ts) acc =
      let rest = λ (d : Decimal). add_parts ids ts (add_to id d acc) in do d ← decimal lib t; rest d

  unfoldable pub set_fixed :
      List (ℕ × Text) → List (ℕ × Decimal) → Result SplitError (List (ℕ × Decimal))
  set_fixed [] acc = ok acc
  set_fixed ((id, t) ∷ es) acc =
      let rest = λ (d : Decimal). set_fixed es (update id (λ v. d) acc) in
      do d ← decimal lib t; rest d

  -- The accounts as shares, rounded to the scale.
  abbrev pub account_shares : ℕ → List (ℕ × Decimal) → List (Share Text)
  account_shares scale acc =
      map
        (λ e. record {
          user_id = e.0;
          owed_amount = rounded_text lib scale e.1;
          percentage = none;
          shares = none;
        })
        acc

  unfoldable pub split_adjustment :
      List (ℕ × Text) → List ℕ → Text → ℕ → ℕ → Result SplitError (SplitResult Text)
  unfolding sum_texts set_fixed add_parts
  split_adjustment fixed remainder total currency scale = do
    throw_if (overlap (map (λ e. e.0) fixed) remainder) users_overlap
    throw_if (length remainder == 0) no_remainder_user
    sum ← sum_texts lib nought (map (λ e. e.1) fixed)
    t ← decimal lib total
    throw_if (gt sum (add t eps)) fixed_exceed_total
    throw_if (gt nought (sub t sum)) remainder_negative
    parts ← lift (distribute_equal lib (to_string (sub t sum)) (length (unique remainder)) scale)
    acc ← set_fixed fixed []
    owed ← add_parts (unique remainder) parts acc
    wrap lib SplitType.adjustment (account_shares scale owed) total currency scale

  -- Whom a line is for: everyone, or the users it names, who must be participants.
  abbrev pub targets : List ℕ → Line Text → Result SplitError (List ℕ)
  targets everyone line =
      if line.everyone
      then ok everyone
      else (if covers everyone (unique line.participants)
          then ok (unique line.participants)
          else err user_outside_group)

  -- The loop over the lines: their sum, and the accounts.
  unfoldable pub split_lines :
      List ℕ
      → ℕ
      → List (Line Text)
      → Decimal
      → List (ℕ × Decimal)
      → Result SplitError (Decimal × List (ℕ × Decimal))
  unfolding add_parts
  split_lines everyone scale [] sum acc = ok (sum, acc)
  split_lines everyone scale (line ∷ lines) sum acc =
      let rest = λ (d : Decimal) (acc' : List (ℕ × Decimal)).
        split_lines everyone scale lines (add sum d) acc' in
      do
        d ← decimal lib line.amount
        ids ← targets everyone line
        throw_if (length ids == 0) line_without_participants
        parts ← lift (distribute_equal lib (to_string d) (length ids) scale)
        acc' ← add_parts ids parts acc
        rest d acc'

  module _ (id_le : ℕ → ℕ → Bool) where
    unfoldable pub split_itemized :
        List ℕ → List (Line Text) → Text → ℕ → ℕ → Result SplitError (SplitResult Text)
    unfolding split_lines
    split_itemized participants lines total currency scale = do
      throw_if (length (unique participants) == 0) no_participants_at_all
      r ← split_lines (unique participants) scale lines nought []
      t ← decimal lib total
      throw_if (not (near lib eps r.0 t)) lines_not_total
      wrap lib SplitType.itemized
          (account_shares scale (sort (λ (a b : ℕ × Decimal). id_le a.0 b.0) r.1)) total currency
          scale

    -- `compute`; no scale is 2.
    abbrev scale_or_two : Option ℕ → ℕ
    scale_or_two none = 2
    scale_or_two (some n) = n

    unfoldable pub compute :
        SplitInput Text → Text → ℕ → Option ℕ → Result SplitError (SplitResult Text)
    compute input total currency given =
        let scale = scale_or_two given in
        elim input [
          | equal ids ↦ split_equal ids total currency scale
          | exact es ↦ split_exact es total currency scale
          | percentage es ↦ split_percentage es total currency scale
          | shares es ↦ split_shares es total currency scale
          | adjustment fixed rem ↦ split_adjustment fixed rem total currency scale
          | itemized all lines ↦ split_itemized all lines total currency scale
        ]
