-- ===== src/Splits/Shares/Named.antt =====
-- For whom the shares of `ExpenseSplitService.compute` are.
use qisma_be.Prelude.{
  ℕ, ◌≡◌, inl, inr, refl, Bool, not, Option, some, List, [], ◌∷◌, ◌++◌, map, length, ◌==◌, All,
  Bool-cases,
}
use qisma_be.Prelude.Sort.{sort, All-sort}
use qisma_be.Prelude.Result.{ok, throw_if}
use qisma_be.Splits.Decimal.{DecimalLib}
use qisma_be.Splits.Money.{distribute_equal, distribute_money_by_weights}
use qisma_be.Splits.Shares.{
  SplitType, SplitInput, equal, exact, percentage, shares, adjustment, itemized, Line, SplitResult,
  sum_texts, near, plain_shares, unique, overlap, covers, decimal, lift, no_participant, no_amount,
  amounts_not_total, percentages_not_hundred, shares_not_positive, users_overlap, no_remainder_user,
  fixed_exceed_total, remainder_negative, no_participants_at_all, lines_not_total,
  line_without_participants, user_outside_group,
}
use qisma_be.Splits.Shares.Ways.{
  split_equal, split_exact, split_percentage, split_shares, split_adjustment, split_itemized,
  compute, exact_shares, annotate, sum_shares, set_fixed, add_parts, account_shares, split_lines,
  targets,
}
use qisma_be.Splits.Shares.Within.{
  IsIn, Within, Within-self, contains-left, contains-right, All-weaken, All-unique, covers-Within,
  IsIn-of, Keyed,
}
use qisma_be.Splits.Shares.Users.{
  ForNamed, plain-Named, account-Named, annotate-Ends, exact-Named, fixed-Keyed, parts-Keyed,
  wrap-ForNamed,
}
use qisma_be.Splits.Shares.Checked.{Ends, done, failed, Ends-bind, Ends-ok}

-- The users that an input names.
abbrev pub named : {T : Type 0} → SplitInput T → List ℕ
named (equal ids) = ids
named (exact es) = map (λ e. e.0) es
named (percentage es) = map (λ e. e.0) es
named (shares es) = map (λ e. e.0) es
named (adjustment es rem) = map (λ e. e.0) es ++ rem
named (itemized all lines) = all

module _ (lib : DecimalLib) (all : List ℕ) where
  open lib use {Decimal, Text, sub, add, gt, lte, eps, nought, hundred, hundredth, to_string}

  equal-ForNamed :
      (ids : List ℕ) (total : Text) (currency scale : ℕ)
      → Within all ids
      → Ends (ForNamed lib all) (split_equal lib ids total currency scale)
  unfolding split_equal
  equal-ForNamed ids total currency scale h =
      let us = unique ids in
      Ends-bind (throw_if (length us == 0) no_participant) _ λ _ _.
        Ends-bind (lift (distribute_equal lib total (length us) scale)) _ λ parts _.
          wrap-ForNamed lib all SplitType.equal (plain_shares lib us parts) total currency scale
            (plain-Named lib all us parts (All-unique all [] ids h))

  exact-ForNamed :
      (es : List (ℕ × Text)) (total : Text) (currency scale : ℕ)
      → Within all (map (λ e. e.0) es)
      → Ends (ForNamed lib all) (split_exact lib es total currency scale)
  unfolding split_exact
  exact-ForNamed es total currency scale h =
      Ends-bind (throw_if (length es == 0) no_amount) _ λ _ _.
        Ends-bind (sum_texts lib nought (map (λ e. e.1) es)) _ λ sum _.
          Ends-bind (decimal lib total) _ λ t _.
            Ends-bind (throw_if (not (near lib eps sum t)) amounts_not_total) _ λ _ _.
              Ends-bind (exact_shares lib scale es) _ λ owed e.
                wrap-ForNamed lib all SplitType.exact owed total currency scale
                  (Ends-ok owed (exact-Named lib all scale es h) e)

  percentage-ForNamed :
      (es : List (ℕ × Text)) (total : Text) (currency scale : ℕ)
      → Within all (map (λ e. e.0) es)
      → Ends (ForNamed lib all) (split_percentage lib es total currency scale)
  unfolding split_percentage
  percentage-ForNamed es total currency scale h =
      Ends-bind (throw_if (length es == 0) no_participant) _ λ _ _.
        Ends-bind (sum_texts lib nought (map (λ e. e.1) es)) _ λ sum _.
          Ends-bind (throw_if (not (near lib hundredth sum hundred)) percentages_not_hundred) _
            λ _ _.
              Ends-bind (lift (distribute_money_by_weights lib total (map (λ e. e.1) es) scale)) _
                λ parts _.
                  let ps = plain_shares lib (map (λ e. e.0) es) parts in
                  Ends-bind (annotate lib (λ t p. record p { percentage = some t }) es ps) _
                    λ owed e. wrap-ForNamed lib all SplitType.percentage owed total currency scale (
                      Ends-ok owed
                        (annotate-Ends lib all (λ t p. record p { percentage = some t }) es ps
                          (λ t p. refl) (plain-Named lib all (map (λ e. e.0) es) parts h))
                        e)

  shares-ForNamed :
      (es : List (ℕ × Text)) (total : Text) (currency scale : ℕ)
      → Within all (map (λ e. e.0) es)
      → Ends (ForNamed lib all) (split_shares lib es total currency scale)
  unfolding split_shares
  shares-ForNamed es total currency scale h =
      Ends-bind (throw_if (length es == 0) no_participant) _ λ _ _.
        Ends-bind (sum_shares lib nought es) _ λ sum _.
          Ends-bind (throw_if (lte sum nought) shares_not_positive) _ λ _ _.
            Ends-bind (lift (distribute_money_by_weights lib total (map (λ e. e.1) es) scale)) _
              λ parts _.
                let ps = plain_shares lib (map (λ e. e.0) es) parts in
                Ends-bind (annotate lib (λ t p. record p { shares = some t }) es ps) _ λ owed e.
                  wrap-ForNamed lib all SplitType.shares owed total currency scale (
                    Ends-ok owed
                      (annotate-Ends lib all (λ t p. record p { shares = some t }) es ps
                        (λ t p. refl) (plain-Named lib all (map (λ e. e.0) es) parts h))
                      e)

  adjustment-ForNamed :
      (es : List (ℕ × Text)) (rem : List ℕ) (total : Text) (currency scale : ℕ)
      → Within all (map (λ e. e.0) es)
      → Within all rem
      → Ends (ForNamed lib all) (split_adjustment lib es rem total currency scale)
  unfolding split_adjustment
  adjustment-ForNamed es rem total currency scale h k =
      Ends-bind (throw_if (overlap (map (λ e. e.0) es) rem) users_overlap) _ λ _ _.
        Ends-bind (throw_if (length rem == 0) no_remainder_user) _ λ _ _.
          Ends-bind (sum_texts lib nought (map (λ e. e.1) es)) _ λ sum _.
            Ends-bind (decimal lib total) _ λ t _.
              Ends-bind (throw_if (gt sum (add t eps)) fixed_exceed_total) _ λ _ _.
                Ends-bind (throw_if (gt nought (sub t sum)) remainder_negative) _ λ _ _.
                  Ends-bind
                    (lift
                      (distribute_equal lib (to_string (sub t sum)) (length (unique rem)) scale))
                    _
                    λ parts _. Ends-bind (set_fixed lib es []) _ λ acc e.
                      Ends-bind (add_parts lib (unique rem) parts acc) _ λ owed f.
                        wrap-ForNamed lib all SplitType.adjustment (account_shares lib scale owed)
                          total currency scale
                          (account-Named lib all scale owed (
                            Ends-ok owed
                              (parts-Keyed lib all (unique rem) parts acc (All-unique all [] rem k)
                                (Ends-ok acc (fixed-Keyed lib all es [] h tt) e))
                              f))

  targets-Within :
      (us : List ℕ) (line : Line Text) → Within all us → Ends (Within all) (targets lib us line)
  targets-Within us line h = elim (Bool-cases line.everyone) [
    | inl e ↦ rw e (done _ h)
    | inr e ↦ elim (Bool-cases (covers us (unique line.participants))) [
      | inl f ↦ rw e (
          rw f (
            done _ (
              All-weaken (unique line.participants) (λ id p. IsIn-of all us id h p)
                (covers-Within us (unique line.participants) f))))
      | inr f ↦ rw e (rw f (failed user_outside_group))
    ]
  ]

  lines-Keyed :
      (us : List ℕ) (scale : ℕ) (lines : List (Line Text)) (sum : Decimal)
      (acc : List (ℕ × Decimal))
      → Within all us
      → Keyed all acc
      → Ends (λ r. Keyed all r.1) (split_lines lib us scale lines sum acc)
  unfolding split_lines
  lines-Keyed us scale [] sum acc h k = done _ k
  lines-Keyed us scale (line ∷ lines) sum acc h k = Ends-bind (decimal lib line.amount) _ λ d _.
      Ends-bind (targets lib us line) _ λ ids e.
        Ends-bind (throw_if (length ids == 0) line_without_participants) _ λ _ _.
          Ends-bind (lift (distribute_equal lib (to_string d) (length ids) scale)) _ λ parts _.
            Ends-bind (add_parts lib ids parts acc) _ λ acc' f.
              lines-Keyed us scale lines (add sum d) acc' h (
                Ends-ok acc'
                  (parts-Keyed lib all ids parts acc (Ends-ok ids (targets-Within us line h) e) k)
                  f)

  itemized-ForNamed :
      (id_le : ℕ → ℕ → Bool) (ids : List ℕ) (lines : List (Line Text)) (total : Text)
      (currency scale : ℕ)
      → Within all ids
      → Ends (ForNamed lib all) (split_itemized lib id_le ids lines total currency scale)
  unfolding split_itemized
  itemized-ForNamed id_le ids lines total currency scale h =
      let us = unique ids in
      let k = All-unique all [] ids h in
      Ends-bind (throw_if (length us == 0) no_participants_at_all) _ λ _ _.
        Ends-bind (split_lines lib us scale lines nought []) _ λ r e.
          Ends-bind (decimal lib total) _ λ t _.
            Ends-bind (throw_if (not (near lib eps r.0 t)) lines_not_total) _ λ _ _.
              let sorted = sort (λ (a b : ℕ × Decimal). id_le a.0 b.0) r.1 in
              wrap-ForNamed lib all SplitType.itemized (account_shares lib scale sorted) total
                currency scale
                (account-Named lib all scale sorted (
                  All-sort (λ (a b : ℕ × Decimal). id_le a.0 b.0) (λ e. IsIn all e.0) r.1
                    (Ends-ok r (lines-Keyed us scale lines nought [] k tt) e)))

module _ (lib : DecimalLib) where
  open lib use {Text}

  compute-ForNamed :
      (id_le : ℕ → ℕ → Bool) (input : SplitInput Text) (total : Text) (currency : ℕ)
      (scale : Option ℕ)
      → Ends (ForNamed lib (named input)) (compute lib id_le input total currency scale)
  unfolding compute
  compute-ForNamed id_le (equal ids) total currency scale =
      equal-ForNamed lib ids ids total currency _ (Within-self ids)
  compute-ForNamed id_le (exact es) total currency scale =
      exact-ForNamed lib _ es total currency _ (Within-self _)
  compute-ForNamed id_le (percentage es) total currency scale =
      percentage-ForNamed lib _ es total currency _ (Within-self _)
  compute-ForNamed id_le (shares es) total currency scale =
      shares-ForNamed lib _ es total currency _ (Within-self _)
  compute-ForNamed id_le (adjustment es rem) total currency scale =
      let fixed = map (λ e. e.0) es in
      adjustment-ForNamed lib (fixed ++ rem) es rem total currency _
        (All-weaken fixed (λ id p. contains-left id fixed rem p) (Within-self fixed))
        (All-weaken rem (λ id p. contains-right id fixed rem p) (Within-self rem))
  compute-ForNamed id_le (itemized ids lines) total currency scale =
      itemized-ForNamed lib ids id_le ids lines total currency _ (Within-self ids)

  -- Whatever way an expense is split, and whatever decimal.js computes: nobody whom the input does
  -- not name gets a share.
  pub compute-named :
      (id_le : ℕ → ℕ → Bool) (input : SplitInput Text) (total : Text) (currency : ℕ)
      (scale : Option ℕ) (r : SplitResult Text)
      → compute lib id_le input total currency scale ≡ ok r
      → All (λ p. IsIn (named input) p.user_id) r.participant_shares
  compute-named id_le input total currency scale r e =
      Ends-ok r (compute-ForNamed id_le input total currency scale) e
