-- ===== src/Splits/Debt/Simplify.antt =====
-- `simplify` as a whole: from the net amounts of the users to the transfers.
use qisma_be.Prelude.{
  ℕ, zero, suc, ◌+◌, ◌-◌, ◌*◌, ◌≤◌, ◌<◌, ◌≡◌, refl, ap, ◌∙◌, ◌⊎◌, inl, inr, true, none, some, List,
  [], ◌∷◌, arith, if◌then◌else◌, length, ◌==◌, All, Bool-cases,
}
use qisma_be.Prelude.Sort.{sort, insert, length-sort, All-sort}
use qisma_be.Prelude.Int.{ℤ, pos, negsuc, pos_part, neg_part, ◌-ℤ◌}
use qisma_be.Splits.Decimal.{DecimalLib, IsExact}
use qisma_be.Splits.Debt.{Party, Parties, Transfers, settle, place, classify, by_amount, simplify}
use qisma_be.Splits.Debt.Transfers.{
  units, IsAmount, AreOwed, owed, owed_in_all, paid_by, paid_to, paid_in_all, speck, allowance,
  is_dust_lem,
}
use qisma_be.Splits.Debt.Conserve.{Settles, settle-Settles}

minus_parts : (a : ℤ) → (pos_part (pos 0 -ℤ a) ≡ neg_part a) × (neg_part (pos 0 -ℤ a) ≡ pos_part a)
unfolding ◌-ℤ◌
minus_parts (pos n) = ground arith
minus_parts (negsuc n) = ground arith

module _ (lib : DecimalLib) (exact : IsExact lib) (scale : ℕ) where
  open lib use {Decimal, Text, parse, neg, is_zero, is_negative, to_dp, lte, ten_pow_neg}
  open exact use {IsAt, value, value-neg, is_zero-value, is_negative-value, to_dp-IsAt, neg-IsAt}

  abbrev pub Net : Type 0
  Net = List (ℕ × Text)

  -- Every amount is the text of a number.
  abbrev pub Parses : Net → Type 0
  Parses = All (λ e. (d : Decimal) × (parse e.1 ≡ some d))

  -- The net amount of an entry, rounded to the scale.
  abbrev pub rounded : Text → ℤ
  rounded t = elim (parse t) [ none ↦ pos 0 | some d ↦ value (to_dp d scale) ]

  -- What a user owes and is owed by the net amounts, and what all users do.
  abbrev pub owes : ℕ → Net → ℕ
  owes user [] = 0
  owes user (e ∷ net) = (if e.0 == user then neg_part (rounded e.1) else 0) + owes user net

  abbrev pub gets : ℕ → Net → ℕ
  gets user [] = 0
  gets user (e ∷ net) = (if e.0 == user then pos_part (rounded e.1) else 0) + gets user net

  abbrev pub owes_in_all : Net → ℕ
  owes_in_all [] = 0
  owes_in_all (e ∷ net) = neg_part (rounded e.1) + owes_in_all net

  abbrev pub gets_in_all : Net → ℕ
  gets_in_all [] = 0
  gets_in_all (e ∷ net) = pos_part (rounded e.1) + gets_in_all net

  -- How many entries are not zero at the scale.
  abbrev pub unsettled : Net → ℕ
  unsettled [] = 0
  unsettled (e ∷ net) =
      (if pos_part (rounded e.1) + neg_part (rounded e.1) == 0 then 0 else 1) + unsettled net

  abbrev Owed : Parties lib → Type 0
  Owed = AreOwed lib exact scale

  -- What `classify` makes of the net amounts.
  record Classified (net : Net) (ds cs : Parties lib) : Type 0 where
    debtors_owed : Owed ds
    creditors_owed : Owed cs
    owed_debtors : (user : ℕ) → owed lib exact user ds ≡ owes user net
    owed_creditors : (user : ℕ) → owed lib exact user cs ≡ gets user net
    all_debtors : owed_in_all lib exact ds ≡ owes_in_all net
    all_creditors : owed_in_all lib exact cs ≡ gets_in_all net
    parties : length ds + length cs ≡ unsettled net
    speck_debtors : allowance lib exact scale ds ≤ length net * speck lib exact scale
    speck_creditors : allowance lib exact scale cs ≤ length net * speck lib exact scale

  -- One more entry, whose rounded amount is `v`.
  module _ (id : ℕ) (t : Text) (v : Decimal) (net : Net) (ds cs : Parties lib)
      (same : rounded t ≡ value v) (k : Classified net ds cs) where
    zero-Classified :
        pos_part (value v) ≡ 0 → neg_part (value v) ≡ 0 → Classified ((id, t) ∷ net) ds cs
    zero-Classified p n = record {
      debtors_owed = k.debtors_owed;
      creditors_owed = k.creditors_owed;
      owed_debtors = λ user. ground (arith, same, k.owed_debtors user);
      owed_creditors = λ user. ground (arith, same, k.owed_creditors user);
      all_debtors = ground (arith, same);
      all_creditors = ground (arith, same);
      parties = ground (arith, same);
      speck_debtors = omega (arith, k.speck_debtors);
      speck_creditors = omega (arith, k.speck_creditors);
    }

    debtor-Classified :
        IsAmount lib exact scale (neg v)
        → units lib exact (neg v) ≡ neg_part (value v)
        → pos_part (value v) ≡ 0
        → 0 < neg_part (value v)
        → Classified ((id, t) ∷ net) (record { id = id; amt = neg v } ∷ ds) cs
    debtor-Classified a u p n = record {
      debtors_owed = (a, k.debtors_owed);
      creditors_owed = k.creditors_owed;
      owed_debtors = λ user. ground (arith, same, k.owed_debtors user);
      owed_creditors = λ user. ground (arith, same, k.owed_creditors user);
      all_debtors = ground (arith, same);
      all_creditors = ground (arith, same);
      parties = ground (arith, same);
      speck_debtors = omega (arith, k.speck_debtors);
      speck_creditors = omega (arith, k.speck_creditors);
    }

    creditor-Classified :
        IsAmount lib exact scale v
        → 0 < pos_part (value v)
        → Classified ((id, t) ∷ net) ds (record { id = id; amt = v } ∷ cs)
    creditor-Classified a p = record {
      debtors_owed = k.debtors_owed;
      creditors_owed = (a, k.creditors_owed);
      owed_debtors = λ user. ground (arith, same, a.1, k.owed_debtors user);
      owed_creditors = λ user. ground (arith, same, a.1, k.owed_creditors user);
      all_debtors = ground (arith, same, a.1);
      all_creditors = ground (arith, same, a.1);
      parties = ground (arith, same, a.1);
      speck_debtors = omega (arith, k.speck_debtors);
      speck_creditors = omega (arith, k.speck_creditors);
    }

    place-Classified :
        IsAt scale v → let r = place lib id v (ds, cs) in Classified ((id, t) ∷ net) r.0 r.1
    unfolding place
    place-Classified at = elim (Bool-cases (is_zero v)) [
      | inl z ↦
          rw z (zero-Classified (ground (arith, is_zero-value v)) (ground (arith, is_zero-value v)))
      | inr z ↦ elim (Bool-cases (is_negative v)) [
        | inl n ↦
            let (u, w) = minus_parts (value v) in
            let e = value-neg v in
            rw (z, n)
              (debtor-Classified (neg-IsAt scale v at, ground (arith, is_negative-value v)) (rw e u)
                (ground (arith, is_negative-value v)) (ground (arith, is_negative-value v)))
        | inr n ↦
            rw (z, n)
              (creditor-Classified (at, ground (arith, is_negative-value v))
                (ground (arith, is_negative-value v, is_zero-value v)))
      ]
    ]

  classify-Classified :
      (net : Net)
      → Parses net
      → (ds : Parties lib) × (cs : Parties lib) × (classify lib net scale ≡ some (ds, cs))
        × Classified net ds cs
  unfolding classify
  classify-Classified [] h = ([], [], refl, ground arith)
  classify-Classified ((id, t) ∷ net) ((d, e), h) =
      let (ds, cs, run, k) = classify-Classified net h in
      let r = place lib id (to_dp d scale) (ds, cs) in
      (
        r.0,
        r.1,
        ground (arith, e, run),
        place-Classified id t (to_dp d scale) net ds cs (ground (arith, e)) k (to_dp-IsAt d scale),
      )

  -- Sorting the parties changes no sum.
  owed-insert :
      (user : ℕ) (p : Party Decimal) (ps : Parties lib)
      → owed lib exact user (insert (by_amount lib) p ps) ≡ owed lib exact user (p ∷ ps)
  unfolding insert
  owed-insert user p [] = refl
  owed-insert user p (q ∷ ps) = ground (arith, owed-insert user p ps)

  owed-sort :
      (user : ℕ) (ps : Parties lib)
      → owed lib exact user (sort (by_amount lib) ps) ≡ owed lib exact user ps
  unfolding sort
  owed-sort user [] = refl
  owed-sort user (p ∷ ps) =
      omega (arith, owed-insert user p (sort (by_amount lib) ps), owed-sort user ps)

  owed_in_all-insert :
      (p : Party Decimal) (ps : Parties lib)
      → owed_in_all lib exact (insert (by_amount lib) p ps) ≡ owed_in_all lib exact (p ∷ ps)
  unfolding insert
  owed_in_all-insert p [] = refl
  owed_in_all-insert p (q ∷ ps) = ground (arith, owed_in_all-insert p ps)

  owed_in_all-sort :
      (ps : Parties lib)
      → owed_in_all lib exact (sort (by_amount lib) ps) ≡ owed_in_all lib exact ps
  unfolding sort
  owed_in_all-sort [] = refl
  owed_in_all-sort (p ∷ ps) =
      omega (arith, owed_in_all-insert p (sort (by_amount lib) ps), owed_in_all-sort ps)

  allowance-length :
      (ps : Parties lib) → allowance lib exact scale ps ≡ length ps * speck lib exact scale
  allowance-length [] = omega arith
  allowance-length (p ∷ ps) = omega (arith, allowance-length ps)

  either_side :
      {ds cs : Parties lib} (net : Net) (ds' cs' : Parties lib) (ts : Transfers lib)
      → Classified net ds cs
      → Settles lib exact scale ds' cs' ts
      → length ds' ≡ length ds
      → length cs' ≡ length cs
      → owed_in_all lib exact ds' ≡ owed_in_all lib exact ds
      → owed_in_all lib exact cs' ≡ owed_in_all lib exact cs
      → let all = paid_in_all lib exact ts + length net * speck lib exact scale in
        (owes_in_all net ≤ all) ⊎ (gets_in_all net ≤ all)
  either_side {ds} {cs} net ds' cs' ts k s len_d len_c all_d all_c =
      let u = speck lib exact scale in
      let same_d = ap (λ (n : ℕ). n * u) len_d in
      let same_c = ap (λ (n : ℕ). n * u) len_c in
      elim s.short [
        | inl a ↦ inl (
            omega
              (arith, k.all_debtors, k.speck_debtors, allowance-length ds', allowance-length ds))
        | inr a ↦ inr (
            omega (
              arith,
              k.all_creditors,
              k.speck_creditors,
              allowance-length cs',
              allowance-length cs,
            ))
      ]

  -- Where every net amount is the text of a number, and all numbers fit the 20 digits of decimal.js,
  -- `simplify` ends with a list of transfers;
  -- there are fewer transfers than users whose rounded net is not zero; no user pays more than
  -- that user's rounded net debt and none receives more than the rounded net claim; and the
  -- transfers add up to all debts or to all claims, but for at most one smallest amount per entry.
  pub simplify_settles :
      (net : Net)
      → Parses net
      → (ts : Transfers lib) × (simplify lib net scale ≡ some ts)
        × (length ts ≤ unsettled net - 1)
        × ((user : ℕ) → paid_by lib exact user ts ≤ owes user net)
        × ((user : ℕ) → paid_to lib exact user ts ≤ gets user net)
        × (let all = paid_in_all lib exact ts + length net * speck lib exact scale in
            (owes_in_all net ≤ all) ⊎ (gets_in_all net ≤ all))
  unfolding simplify
  simplify_settles net h =
      let (ds, cs, run, k) = classify-Classified net h in
      let le = by_amount lib in
      let len_d = length-sort le ds in
      let len_c = length-sort le cs in
      let (ts, ends, s) =
        settle-Settles lib exact scale (length ds + length cs) (sort le ds) (sort le cs)
          (All-sort le (λ p. IsAmount lib exact scale p.amt) ds k.debtors_owed)
          (All-sort le (λ p. IsAmount lib exact scale p.amt) cs k.creditors_owed)
          (omega (arith, len_d, len_c)) in
      (
        ts,
        ground (arith, run, ends),
        omega (arith, s.few, k.parties, len_d, len_c),
        λ user. omega (arith, s.paid_by_le user, owed-sort user ds, k.owed_debtors user),
        λ user. omega (arith, s.paid_to_le user, owed-sort user cs, k.owed_creditors user),
        either_side net (sort le ds) (sort le cs) ts k s len_d len_c (owed_in_all-sort ds)
            (owed_in_all-sort cs),
      )

  IsDust : Parties lib → Type 0
  IsDust =
      All (λ p. IsAmount lib exact scale p.amt × (units lib exact p.amt ≤ speck lib exact scale))

  settle-IsDust :
      (fuel : ℕ) (ds cs : Parties lib)
      → IsDust ds
      → length ds + length cs ≤ fuel
      → settle lib scale fuel ds cs ≡ some []
  unfolding settle IsDust
  settle-IsDust fuel [] cs h l = refl
  settle-IsDust zero (d ∷ ds) cs h l = absurd (omega arith)
  settle-IsDust (suc fuel) (d ∷ ds) [] h l = refl
  settle-IsDust (suc fuel) (d ∷ ds) (c ∷ cs) ((a, small), h) l =
      let test : lte d.amt (ten_pow_neg scale) ≡ true =
        is_dust_lem lib exact scale d.amt a.1 ∙ ground arith in
      rw test (settle-IsDust fuel ds (c ∷ cs) h (omega arith))

  owed-IsDust :
      (ps : Parties lib)
      → Owed ps
      → ((user : ℕ) → owed lib exact user ps ≤ speck lib exact scale)
      → IsDust ps
  unfolding IsDust
  owed-IsDust [] o h = tt
  owed-IsDust (p ∷ ps) (a, o) h =
      ((a, ground (arith, h p.id)), owed-IsDust ps o (λ user. omega (arith, h user)))

  -- Where no user owes more than one smallest amount of the scale, and all numbers fit the 20 digits
  -- of decimal.js, `simplify` returns no transfer,
  -- whatever the creditors are owed.
  pub simplify-dust :
      (net : Net)
      → Parses net
      → ((user : ℕ) → owes user net ≤ speck lib exact scale)
      → simplify lib net scale ≡ some []
  unfolding simplify
  simplify-dust net h small =
      let (ds, cs, run, k) = classify-Classified net h in
      let le = by_amount lib in
      let dusty =
        owed-IsDust (sort le ds)
          (All-sort le (λ p. IsAmount lib exact scale p.amt) ds k.debtors_owed)
          (λ user. omega (arith, small user, owed-sort user ds, k.owed_debtors user)) in
      let ends =
        settle-IsDust (length ds + length cs) (sort le ds) (sort le cs) dusty
          (omega (arith, length-sort le ds, length-sort le cs)) in
      ground (arith, run, ends)
