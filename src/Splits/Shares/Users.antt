-- ===== src/Splits/Shares/Users.antt =====
-- src/modules/splits/expense-split.service.ts: for whom the shares are that the six ways build.
use mathlib.Core.Path.{subst}
use qisma_be.Prelude.{ℕ, ◌≡◌, sym, not, none, some, List, [], ◌∷◌, map, All}
use qisma_be.Prelude.Result.{throw_if}
use qisma_be.Splits.Decimal.{DecimalLib}
use qisma_be.Splits.Money.{to_minor_units}
use qisma_be.Splits.Shares.{
  SplitType, Share, SplitResult, sum_texts, near, plain_shares, wrap, update, decimal, lift,
  sum_not_total,
}
use qisma_be.Splits.Shares.Ways.{
  exact_shares, annotate, set_fixed, add_parts, add_to, account_shares,
}
use qisma_be.Splits.Shares.Within.{IsIn, Within, Keyed, update-Keyed}
use qisma_be.Splits.Shares.Checked.{Ends, done, Ends-bind, Ends-ok}

module _ (lib : DecimalLib) (all : List ℕ) where
  open lib use {Decimal, Text, sub, add, gt, lte, eps, nought, hundred, hundredth, to_string}

  -- Every share is for one of the users.
  abbrev pub Named : List (Share Text) → Type 0
  Named = All (λ p. IsIn all p.user_id)

  abbrev pub ForNamed : SplitResult Text → Type 0
  ForNamed r = Named r.participant_shares

  pub plain-Named :
      (ids : List ℕ) (parts : List Text) → Within all ids → Named (plain_shares lib ids parts)
  plain-Named [] parts h = tt
  plain-Named (id ∷ ids) [] (p, h) = (p, plain-Named ids [] h)
  plain-Named (id ∷ ids) (t ∷ ts) (p, h) = (p, plain-Named ids ts h)

  pub account-Named :
      (scale : ℕ) (acc : List (ℕ × Decimal)) → Keyed all acc → Named (account_shares lib scale acc)
  account-Named scale [] h = tt
  account-Named scale (e ∷ acc) (p, h) = (p, account-Named scale acc h)

  pub annotate-Ends :
      (f : Text → Share Text → Share Text) (es : List (ℕ × Text)) (ps : List (Share Text))
      → ((t : Text) (p : Share Text) → (f t p).user_id ≡ p.user_id)
      → Named ps
      → Ends Named (annotate lib f es ps)
  unfolding annotate
  annotate-Ends f [] ps k h = done _ tt
  annotate-Ends f (e ∷ es) [] k h = done _ tt
  annotate-Ends f ((id, raw) ∷ es) (p ∷ ps) k (q, h) = Ends-bind (decimal lib raw) _ λ d _.
      Ends-bind (annotate lib f es ps) _ λ more e.
        done _ (subst (IsIn all) (sym (k _ p)) q, Ends-ok more (annotate-Ends f es ps k h) e)

  pub exact-Named :
      (scale : ℕ) (es : List (ℕ × Text))
      → Within all (map (λ e. e.0) es)
      → Ends Named (exact_shares lib scale es)
  unfolding exact_shares
  exact-Named scale [] h = done _ tt
  exact-Named scale ((id, amt) ∷ es) (p, h) = Ends-bind (decimal lib amt) _ λ d _.
      Ends-bind (exact_shares lib scale es) _
        λ more e. done _ (p, Ends-ok more (exact-Named scale es h) e)

  pub fixed-Keyed :
      (es : List (ℕ × Text)) (acc : List (ℕ × Decimal))
      → Within all (map (λ e. e.0) es)
      → Keyed all acc
      → Ends (Keyed all) (set_fixed lib es acc)
  unfolding set_fixed
  fixed-Keyed [] acc h k = done _ k
  fixed-Keyed ((id, t) ∷ es) acc (p, h) k =
      Ends-bind (decimal lib t) _
        λ d _. fixed-Keyed es (update id (λ v. d) acc) h (update-Keyed all id (λ v. d) acc p k)

  add-Keyed :
      (id : ℕ) (d : Decimal) (acc : List (ℕ × Decimal))
      → IsIn all id
      → Keyed all acc
      → Keyed all (add_to lib id d acc)
  add-Keyed id d acc p k =
      update-Keyed all id (λ v. elim v [ none ↦ add nought d | some x ↦ add x d ]) acc p k

  pub parts-Keyed :
      (ids : List ℕ) (parts : List Text) (acc : List (ℕ × Decimal))
      → Within all ids
      → Keyed all acc
      → Ends (Keyed all) (add_parts lib ids parts acc)
  unfolding add_parts
  parts-Keyed [] parts acc h k = done _ k
  parts-Keyed (id ∷ ids) [] acc (p, h) k =
      Ends-bind (decimal lib lib.text_zero) _
        λ d _. parts-Keyed ids [] (add_to lib id d acc) h (add-Keyed id d acc p k)
  parts-Keyed (id ∷ ids) (t ∷ ts) acc (p, h) k =
      Ends-bind (decimal lib t) _
        λ d _. parts-Keyed ids ts (add_to lib id d acc) h (add-Keyed id d acc p k)

  pub wrap-ForNamed :
      (type : SplitType) (owed : List (Share Text)) (total : Text) (currency scale : ℕ)
      → Named owed
      → Ends ForNamed (wrap lib type owed total currency scale)
  unfolding wrap
  wrap-ForNamed type owed total currency scale h =
      Ends-bind (sum_texts lib nought (map (λ p. p.owed_amount) owed)) _ λ sum _.
        Ends-bind (decimal lib total) _ λ d _.
          Ends-bind (throw_if (not (near lib eps sum d)) sum_not_total) _
            λ _ _. Ends-bind (lift (to_minor_units lib total scale)) _ λ _ _. done _ h
