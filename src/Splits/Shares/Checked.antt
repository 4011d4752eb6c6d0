-- ===== src/Splits/Shares/Checked.antt =====
-- Whatever `ExpenseSplitService.compute` returns has passed the check of `wrap`.
use mathlib.Core.Path.{subst, ap₂}
use qisma_be.Prelude.{
  ℕ, ◌+◌, ◌≤◌, ◌≡◌, refl, sym, ap, ◌∙◌, Bool, true, not, Option, some, List, map, arith, [], ◌∷◌,
  length, ◌==◌, Option-cases, inl, inr,
}
use qisma_be.Prelude.Int.{ℤ, pos, pos_part, neg_part, leb_ℤ, ◌-ℤ◌, ◌+ℤ◌, +ℤ-zero, zero-+ℤ, +ℤ_assoc}
use qisma_be.Prelude.Sort.{sort}
use qisma_be.Prelude.Result.{Result, ok, err, ◌>>=◌, throw_if}
use qisma_be.Splits.Decimal.{DecimalLib, IsExact}
use qisma_be.Splits.Money.{distribute_equal, distribute_money_by_weights, to_minor_units}
use qisma_be.Splits.Shares.{
  SplitType, SplitInput, equal, exact, percentage, shares, adjustment, itemized, Line, Share,
  SplitResult, sum_texts, near, plain_shares, wrap, unique, decimal, lift, sum_not_total,
  no_participant, no_amount, amounts_not_total, percentages_not_hundred, shares_not_positive,
  users_overlap, no_remainder_user, fixed_exceed_total, remainder_negative, no_participants_at_all,
  lines_not_total, overlap,
}
use qisma_be.Splits.Shares.Ways.{
  split_equal, split_exact, split_percentage, split_shares, split_adjustment, split_itemized,
  compute, exact_shares, annotate, sum_shares, set_fixed, add_parts, account_shares, split_lines,
}

-- Every result has the property.
pub data Ends {E A : Type 0} (P : A → Type 0) : Result E A → Type 0 where
  done : (a : A) → P a → Ends P (ok a)
  failed : (e : E) → Ends P (err e)

pub Ends-bind :
    {E A B : Type 0} {P : B → Type 0} (m : Result E A) (f : A → Result E B)
    → ((a : A) → m ≡ ok a → Ends P (f a))
    → Ends P (m >>= f)
Ends-bind (ok a) f h = h a refl
Ends-bind (err e) f h = failed e

ok_inj : {E A : Type 0} (a b : A) → ◌≡◌ {A = Result E A} (ok a) (ok b) → a ≡ b
ok_inj a b e = ground arith

pub Ends-ok : {E A : Type 0} {P : A → Type 0} {m : Result E A} (a : A) → Ends P m → m ≡ ok a → P a
Ends-ok {P} a (done b p) e = subst P (ok_inj b a e) p
Ends-ok a (failed x) e = absurd (ground arith)

throw_if_ok : {E : Type 0} (b : Bool) (e : E) → throw_if (not b) e ≡ ok tt → b ≡ true
throw_if_ok b e h = ground arith

small :
    (a b : ℤ)
    → leb_ℤ (pos (pos_part a + neg_part a)) b ≡ true
    → neg_part b ≡ 0
    → pos_part a + neg_part a ≤ pos_part b
small a b e h = ground arith

module _ (lib : DecimalLib) (laws : IsExact lib) (total : lib.Text) where
  open lib use {
    Decimal, Text, parse, sub, abs, lte, eps, nought, add, gt, hundred, hundredth, to_string,
  }
  open laws use {value, value-nought, value-add, value-sub, value-abs, lte-value, eps_nonneg}

  -- The numbers added up.
  abbrev pub worth_of : List Decimal → ℤ
  worth_of [] = pos 0
  worth_of (d ∷ ds) = value d +ℤ worth_of ds

  -- The shares are texts of numbers, so is the total, and the shares together are worth what the
  -- total is, but for the tolerance of the code.
  abbrev pub AddsUp : SplitResult Text → Type 0
  AddsUp r =
      (ds : List Decimal) × (d : Decimal) × (map (λ p. parse p.owed_amount) r.participant_shares
        ≡ map some ds)
      × (parse total ≡ some d)
      × (let gap = worth_of ds -ℤ value d in pos_part gap + neg_part gap ≤ pos_part (value eps))

  decimal-parse : (t : Text) (d : Decimal) → decimal lib t ≡ ok d → parse t ≡ some d
  decimal-parse t d e = ground arith

  near-le :
      (a b : Decimal)
      → near lib eps a b ≡ true
      → let gap = value a -ℤ value b in pos_part gap + neg_part gap ≤ pos_part (value eps)
  near-le a b e =
      small (value a -ℤ value b) (value eps)
        (ap (λ z. leb_ℤ z (value eps))
            (sym (value-abs (sub a b) ∙ ap (λ z. pos (pos_part z + neg_part z)) (value-sub a b)))
          ∙ sym (lte-value (abs (sub a b)) eps)
          ∙ e)
        eps_nonneg

  sum_texts-worth_of :
      (ps : List (Share Text)) (acc sum : Decimal)
      → sum_texts lib acc (map (λ p. p.owed_amount) ps) ≡ ok sum
      → (ds : List Decimal) × (map (λ p. parse p.owed_amount) ps ≡ map some ds)
        × (value sum ≡ value acc +ℤ worth_of ds)
  unfolding sum_texts
  sum_texts-worth_of [] acc sum e =
      ([], refl, ap value (ok_inj sum acc (sym e)) ∙ sym (+ℤ-zero (value acc)))
  sum_texts-worth_of (p ∷ ps) acc sum e = elim (Option-cases (parse p.owed_amount)) [
    | inl n ↦ absurd (ground arith)
    | inr (d, n) ↦
        let (ds, f, g) = sum_texts-worth_of ps (add acc d) sum (ground arith) in
        (
          d ∷ ds,
          ap₂ ◌∷◌ n f,
          g
              ∙ ap (λ z. z +ℤ worth_of ds) (value-add acc d)
              ∙ +ℤ_assoc (value acc) (value d) (worth_of ds),
        )
  ]

  AddsUp-close :
      (ps : List (Share Text)) (sum d : Decimal)
      → sum_texts lib nought (map (λ p. p.owed_amount) ps) ≡ ok sum
      → near lib eps sum d ≡ true
      → (ds : List Decimal) × (map (λ p. parse p.owed_amount) ps ≡ map some ds)
        × (let gap = worth_of ds -ℤ value d in pos_part gap + neg_part gap ≤ pos_part (value eps))
  AddsUp-close ps sum d e h =
      let (ds, f, g) = sum_texts-worth_of ps nought sum e in
      let same : value sum ≡ worth_of ds =
        g ∙ ap (λ z. z +ℤ worth_of ds) value-nought ∙ zero-+ℤ (worth_of ds) in
      (
        ds,
        f,
        subst (λ z. let gap = z -ℤ value d in pos_part gap + neg_part gap ≤ pos_part (value eps))
            same (near-le sum d h),
      )

  wrap-Ends :
      (type : SplitType) (owed : List (Share Text)) (currency scale : ℕ)
      → Ends AddsUp (wrap lib type owed total currency scale)
  unfolding wrap
  wrap-Ends type owed currency scale =
      Ends-bind (sum_texts lib nought (map (λ p. p.owed_amount) owed)) _ λ sum e.
        Ends-bind (decimal lib total) _ λ d f.
          Ends-bind (throw_if (not (near lib eps sum d)) sum_not_total) _ λ _ g.
            Ends-bind (lift (to_minor_units lib total scale)) _ λ _ _.
              let (ds, t, h) = AddsUp-close owed sum d e (throw_if_ok _ _ g) in
              done _ (ds, d, t, decimal-parse total d f, h)

  equal-Ends :
      (ids : List ℕ) (currency scale : ℕ) → Ends AddsUp (split_equal lib ids total currency scale)
  unfolding split_equal
  equal-Ends ids currency scale =
      let us = unique ids in
      Ends-bind (throw_if (length us == 0) no_participant) _ λ _ _.
        Ends-bind (lift (distribute_equal lib total (length us) scale)) _
          λ parts _. wrap-Ends SplitType.equal (plain_shares lib us parts) currency scale

  exact-Ends :
      (es : List (ℕ × Text)) (currency scale : ℕ)
      → Ends AddsUp (split_exact lib es total currency scale)
  unfolding split_exact
  exact-Ends es currency scale = Ends-bind (throw_if (length es == 0) no_amount) _ λ _ _.
      Ends-bind (sum_texts lib nought (map (λ e. e.1) es)) _ λ sum _.
        Ends-bind (decimal lib total) _ λ t _.
          Ends-bind (throw_if (not (near lib eps sum t)) amounts_not_total) _ λ _ _.
            Ends-bind (exact_shares lib scale es) _
              λ owed _. wrap-Ends SplitType.exact owed currency scale

  percentage-Ends :
      (es : List (ℕ × Text)) (currency scale : ℕ)
      → Ends AddsUp (split_percentage lib es total currency scale)
  unfolding split_percentage
  percentage-Ends es currency scale = Ends-bind (throw_if (length es == 0) no_participant) _ λ _ _.
      Ends-bind (sum_texts lib nought (map (λ e. e.1) es)) _ λ sum _.
        Ends-bind (throw_if (not (near lib hundredth sum hundred)) percentages_not_hundred) _ λ _ _.
          Ends-bind (lift (distribute_money_by_weights lib total (map (λ e. e.1) es) scale)) _
            λ parts _.
              Ends-bind
                (annotate lib (λ t p. record p { percentage = some t }) es
                  (plain_shares lib (map (λ e. e.0) es) parts))
                _ λ owed _. wrap-Ends SplitType.percentage owed currency scale

  shares-Ends :
      (es : List (ℕ × Text)) (currency scale : ℕ)
      → Ends AddsUp (split_shares lib es total currency scale)
  unfolding split_shares
  shares-Ends es currency scale = Ends-bind (throw_if (length es == 0) no_participant) _ λ _ _.
      Ends-bind (sum_shares lib nought es) _ λ sum _.
        Ends-bind (throw_if (lte sum nought) shares_not_positive) _ λ _ _.
          Ends-bind (lift (distribute_money_by_weights lib total (map (λ e. e.1) es) scale)) _
            λ parts _.
              Ends-bind
                (annotate lib (λ t p. record p { shares = some t }) es
                  (plain_shares lib (map (λ e. e.0) es) parts))
                _ λ owed _. wrap-Ends SplitType.shares owed currency scale

  adjustment-Ends :
      (es : List (ℕ × Text)) (rem : List ℕ) (currency scale : ℕ)
      → Ends AddsUp (split_adjustment lib es rem total currency scale)
  unfolding split_adjustment
  adjustment-Ends es rem currency scale =
      Ends-bind (throw_if (overlap (map (λ e. e.0) es) rem) users_overlap) _ λ _ _.
        Ends-bind (throw_if (length rem == 0) no_remainder_user) _ λ _ _.
          Ends-bind (sum_texts lib nought (map (λ e. e.1) es)) _ λ sum _.
            Ends-bind (decimal lib total) _ λ t _.
              Ends-bind (throw_if (gt sum (add t eps)) fixed_exceed_total) _ λ _ _.
                Ends-bind (throw_if (gt nought (sub t sum)) remainder_negative) _ λ _ _.
                  Ends-bind
                    (lift
                      (distribute_equal lib (to_string (sub t sum)) (length (unique rem)) scale))
                    _
                    λ parts _. Ends-bind (set_fixed lib es []) _ λ acc _.
                      Ends-bind (add_parts lib (unique rem) parts acc) _ λ owed _.
                        wrap-Ends SplitType.adjustment (account_shares lib scale owed) currency
                          scale

  itemized-Ends :
      (id_le : ℕ → ℕ → Bool) (all : List ℕ) (lines : List (Line Text)) (currency scale : ℕ)
      → Ends AddsUp (split_itemized lib id_le all lines total currency scale)
  unfolding split_itemized
  itemized-Ends id_le all lines currency scale =
      let us = unique all in
      Ends-bind (throw_if (length us == 0) no_participants_at_all) _ λ _ _.
        Ends-bind (split_lines lib us scale lines nought []) _ λ r _.
          Ends-bind (decimal lib total) _ λ t _.
            Ends-bind (throw_if (not (near lib eps r.0 t)) lines_not_total) _ λ _ _.
              wrap-Ends SplitType.itemized
                (account_shares lib scale (sort (λ (a b : ℕ × Decimal). id_le a.0 b.0) r.1))
                currency scale

  compute-Ends :
      (id_le : ℕ → ℕ → Bool) (input : SplitInput Text) (currency : ℕ) (scale : Option ℕ)
      → Ends AddsUp (compute lib id_le input total currency scale)
  unfolding compute
  compute-Ends id_le (equal ids) currency scale = equal-Ends ids currency _
  compute-Ends id_le (exact es) currency scale = exact-Ends es currency _
  compute-Ends id_le (percentage es) currency scale = percentage-Ends es currency _
  compute-Ends id_le (shares es) currency scale = shares-Ends es currency _
  compute-Ends id_le (adjustment es rem) currency scale = adjustment-Ends es rem currency _
  compute-Ends id_le (itemized all lines) currency scale = itemized-Ends id_le all lines currency _

  -- Whatever way an expense is split, with amounts that fit the 20 digits of decimal.js: where
  -- `compute` returns, the total and all shares are texts of numbers, and these numbers, added up
  -- one by one, are the total but for the tolerance of 0.0001 at most.
  pub compute-AddsUp :
      (id_le : ℕ → ℕ → Bool) (input : SplitInput Text) (currency : ℕ) (scale : Option ℕ)
      (r : SplitResult Text)
      → compute lib id_le input total currency scale ≡ ok r
      → AddsUp r
  compute-AddsUp id_le input currency scale r e =
      Ends-ok r (compute-Ends id_le input currency scale) e
