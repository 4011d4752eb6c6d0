-- ===== src/Splits/Balance/Nets.antt =====
-- The net amounts of `BalanceEngine` are what each user has paid less what the user owes.
use qisma_be.Prelude.{
  ℕ, ◌≡◌, ◌≢◌, sym, ap, ◌∙◌, inl, inr, Bool, true, false, none, some, List, [], ◌∷◌, arith, ◌==◌,
  if◌then◌else◌, All, Bool-cases, Option, Option-cases,
}
use qisma_be.Prelude.Int.{
  ℤ, pos, ◌+ℤ◌, ◌-ℤ◌, +ℤ_comm, +ℤ_assoc, +ℤ_left_comm, zero-+ℤ, +ℤ-zero, -ℤ-zero, -ℤ-+ℤ, +ℤ--ℤ,
  -ℤ--ℤ,
}
use qisma_be.Splits.Decimal.{DecimalLib, IsExact}
use qisma_be.Splits.Shares.{update}
use qisma_be.Splits.Balance.{
  Entry, Net, or_nought, take_from, give_to, take_owed, net_from_expense, add_all, net_of_all,
}

give_here :
    (b : Bool) (x y h : ℤ)
    → (if b then x +ℤ y else pos 0) +ℤ h
      ≡ (if b then y else pos 0) +ℤ ((if b then x else pos 0) +ℤ h)
give_here true x y h = ap (λ z. z +ℤ h) (+ℤ_comm x y) ∙ +ℤ_assoc y x h
give_here false x y h = sym (zero-+ℤ (pos 0 +ℤ h))

take_here :
    (b : Bool) (x y h : ℤ)
    → (if b then x -ℤ y else pos 0) +ℤ h ≡ (if b then x else pos 0) +ℤ h -ℤ (if b then y else pos 0)
take_here true x y h = -ℤ-+ℤ x y h
take_here false x y h = sym (-ℤ-zero (pos 0 +ℤ h))

take_new :
    (b : Bool) (y : ℤ)
    → (if b then pos 0 -ℤ y else pos 0) +ℤ pos 0 ≡ pos 0 -ℤ (if b then y else pos 0)
take_new true y = +ℤ-zero (pos 0 -ℤ y)
take_new false y = +ℤ-zero (pos 0) ∙ sym (-ℤ-zero (pos 0))

some_inj : {A : Type 0} (a b : A) → ◌≡◌ {A = Option A} (some a) (some b) → a ≡ b
some_inj a b e = ground arith

module _ (lib : DecimalLib) (laws : IsExact lib) where
  open lib use {Decimal, Text, parse, to_string, nought, add, sub, to_dp, is_zero}
  open laws use {
    value, IsAt, parse-to_string, value-nought, value-add, value-sub, is_zero-value, to_dp-eq,
    sub-IsAt, add-IsAt, nought-IsAt,
  }

  -- The specification: what a text is worth, and what some users have paid less
  -- what they owe.
  abbrev pub amount : Text → ℤ
  amount t = elim (parse t) [ none ↦ pos 0 | some d ↦ value d ]

  abbrev pub owed_by : (ℕ → Bool) → List (ℕ × Text) → ℤ
  owed_by who [] = pos 0
  owed_by who (e ∷ es) = (if who e.0 then amount e.1 else pos 0) +ℤ owed_by who es

  abbrev pub net_of : (ℕ → Bool) → List (Entry Text) → ℤ
  net_of who [] = pos 0
  net_of who (e ∷ es) =
      (if who e.paid_by then amount e.total else pos 0) -ℤ owed_by who e.owed +ℤ net_of who es

  -- The sum of the accounts of these users.
  abbrev pub held : (ℕ → Bool) → Net lib → ℤ
  held who [] = pos 0
  held who (e ∷ net) = (if who e.0 then value e.1 else pos 0) +ℤ held who net

  held-give_to :
      (who : ℕ → Bool) (id : ℕ) (d : Decimal) (net : Net lib)
      → held who (give_to lib id d net) ≡ (if who id then value d else pos 0) +ℤ held who net
  held-give_to who id d [] =
      ap (λ z. (if who id then z else pos 0) +ℤ pos 0)
        (value-add nought d ∙ ap (λ z. z +ℤ value d) value-nought ∙ zero-+ℤ (value d))
  held-give_to who id d ((k, v) ∷ net) = elim (Bool-cases (k == id)) [
    | inl e ↦
        let same : k ≡ id = ground arith in
        rw e (
          ap (λ z. (if who k then z else pos 0) +ℤ held who net) (value-add v d)
          ∙ give_here (who k) (value v) (value d) (held who net)
          ∙ ap
              (λ z.
                (if who z then value d else pos 0)
                +ℤ ((if who k then value v else pos 0) +ℤ held who net))
              same)
    | inr e ↦
        rw (e, held-give_to who id d net)
          (+ℤ_left_comm (if who k then value v else pos 0) (if who id then value d else pos 0)
            (held who net))
  ]

  held-take_from :
      (who : ℕ → Bool) (id : ℕ) (d : Decimal) (net : Net lib)
      → held who (take_from lib id d net) ≡ held who net -ℤ (if who id then value d else pos 0)
  held-take_from who id d [] =
      ap (λ z. (if who id then z else pos 0) +ℤ pos 0)
        (value-sub nought d ∙ ap (λ z. z -ℤ value d) value-nought)
      ∙ take_new (who id) (value d)
  held-take_from who id d ((k, v) ∷ net) = elim (Bool-cases (k == id)) [
    | inl e ↦
        let same : k ≡ id = ground arith in
        rw e (
          ap (λ z. (if who k then z else pos 0) +ℤ held who net) (value-sub v d)
          ∙ take_here (who k) (value v) (value d) (held who net)
          ∙ ap
              (λ z.
                (if who k then value v else pos 0)
                +ℤ held who net
                -ℤ (if who z then value d else pos 0))
              same)
    | inr e ↦
        rw (e, held-take_from who id d net)
          (+ℤ--ℤ (if who k then value v else pos 0) (held who net)
            (if who id then value d else pos 0))
  ]

  take_owed-held :
      (who : ℕ → Bool) (es : List (ℕ × Text)) (net net' : Net lib)
      → take_owed lib es net ≡ some net'
      → held who net' ≡ held who net -ℤ owed_by who es
  unfolding take_owed
  take_owed-held who [] net net' e =
      ap (held who) (some_inj net' net (sym e)) ∙ sym (-ℤ-zero (held who net))
  take_owed-held who ((id, raw) ∷ es) net net' e = elim (Option-cases (parse raw)) [
    | inl p ↦ absurd (ground arith)
    | inr (d, p) ↦
        let step : take_owed lib es (take_from lib id d net) ≡ some net' = ground arith in
        let worth : amount raw ≡ value d = ground arith in
        take_owed-held who es (take_from lib id d net) net' step
        ∙ ap (λ z. z -ℤ owed_by who es) (held-take_from who id d net)
        ∙ -ℤ--ℤ (held who net) (if who id then value d else pos 0) (owed_by who es)
        ∙ ap (λ z. held who net -ℤ ((if who id then z else pos 0) +ℤ owed_by who es)) (sym worth)
  ]

  net_from_expense-held :
      (who : ℕ → Bool) (e : Entry Text) (net : Net lib)
      → net_from_expense lib e ≡ some net
      → held who net ≡ (if who e.paid_by then amount e.total else pos 0) -ℤ owed_by who e.owed
  unfolding net_from_expense
  net_from_expense-held who e net h = elim (Option-cases (parse e.total)) [
    | inl p ↦ absurd (ground arith)
    | inr (d, p) ↦ elim (Option-cases (take_owed lib e.owed [])) [
      | inl q ↦ absurd (ground arith)
      | inr (taken, q) ↦
          let here : net ≡ give_to lib e.paid_by d taken = ground arith in
          let worth : amount e.total ≡ value d = ground arith in
          let x = (if who e.paid_by then value d else pos 0) in
          ap (held who) here
          ∙ held-give_to who e.paid_by d taken
          ∙ ap (λ z. x +ℤ z) (take_owed-held who e.owed [] taken q)
          ∙ +ℤ--ℤ x (pos 0) (owed_by who e.owed)
          ∙ ap (λ z. z -ℤ owed_by who e.owed) (+ℤ-zero x)
          ∙ ap (λ z. (if who e.paid_by then z else pos 0) -ℤ owed_by who e.owed) (sym worth)
    ]
  ]

  held-add_all :
      (who : ℕ → Bool) (delta net : Net lib)
      → held who (add_all lib delta net) ≡ held who delta +ℤ held who net
  held-add_all who [] net = sym (zero-+ℤ (held who net))
  held-add_all who ((id, v) ∷ delta) net =
      let x = (if who id then value v else pos 0) in
      held-add_all who delta (give_to lib id v net)
      ∙ ap (λ z. held who delta +ℤ z) (held-give_to who id v net)
      ∙ +ℤ_left_comm (held who delta) x (held who net)
      ∙ sym (+ℤ_assoc x (held who delta) (held who net))

  pub net_of_all-held :
      (who : ℕ → Bool) (es : List (Entry Text)) (net net' : Net lib)
      → net_of_all lib es net ≡ some net'
      → held who net' ≡ net_of who es +ℤ held who net
  unfolding net_of_all
  net_of_all-held who [] net net' e =
      ap (held who) (some_inj net' net (sym e)) ∙ sym (zero-+ℤ (held who net))
  net_of_all-held who (e ∷ es) net net' h = elim (Option-cases (net_from_expense lib e)) [
    | inl p ↦ absurd (ground arith)
    | inr (delta, p) ↦
        let step : net_of_all lib es (add_all lib delta net) ≡ some net' = ground arith in
        let x = (if who e.paid_by then amount e.total else pos 0) -ℤ owed_by who e.owed in
        net_of_all-held who es (add_all lib delta net) net' step
        ∙ ap (λ z. net_of who es +ℤ z) (held-add_all who delta net)
        ∙ ap (λ z. net_of who es +ℤ (z +ℤ held who net)) (net_from_expense-held who e delta p)
        ∙ +ℤ_left_comm (net_of who es) x (held who net)
        ∙ sym (+ℤ_assoc x (net_of who es) (held who net))
  ]

  -- A text of a number of so many places.
  abbrev pub IsAmountText : ℕ → Text → Type 0
  IsAmountText scale t = (d : Decimal) × (parse t ≡ some d) × IsAt scale d

  abbrev pub IsEntry : ℕ → Entry Text → Type 0
  IsEntry scale e = IsAmountText scale e.total × All (λ p. IsAmountText scale p.1) e.owed

  -- The accounts of a map: one for each user, each of so many places.
  abbrev pub Absent : ℕ → Net lib → Type 0
  Absent id = All (λ e. e.0 ≢ id)

  abbrev pub IsNet : ℕ → Net lib → Type 0
  IsNet scale [] = Unit {0}
  IsNet scale (e ∷ net) = Absent e.0 net × IsAt scale e.1 × IsNet scale net

  update-Absent :
      (id user : ℕ) (f : Option Decimal → Decimal) (net : Net lib)
      → id ≢ user
      → Absent user net
      → Absent user (update id f net)
  update-Absent id user f [] h a = (h, tt)
  update-Absent id user f ((k, v) ∷ net) h (p, a) = elim (Bool-cases (k == id)) [
    | inl e ↦ rw e (p, a)
    | inr e ↦ rw e (p, update-Absent id user f net h a)
  ]

  update-IsNet :
      (scale id : ℕ) (f : Option Decimal → Decimal) (net : Net lib)
      → IsAt scale (f none)
      → ((v : Decimal) → IsAt scale v → IsAt scale (f (some v)))
      → IsNet scale net
      → IsNet scale (update id f net)
  update-IsNet scale id f [] n s h = (tt, n, tt)
  update-IsNet scale id f ((k, v) ∷ net) n s (a, p, h) = elim (Bool-cases (k == id)) [
    | inl e ↦ rw e (a, s v p, h)
    | inr e ↦ rw e (
      update-Absent id k f net (λ q. absurd (ground arith)) a,
      p,
      update-IsNet scale id f net n s h,
    )
  ]

  pub give_to-IsNet :
      (scale id : ℕ) (d : Decimal) (net : Net lib)
      → IsAt scale d
      → IsNet scale net
      → IsNet scale (give_to lib id d net)
  give_to-IsNet scale id d net p h =
      update-IsNet scale id (λ v. add (or_nought lib v) d) net
        (add-IsAt scale nought d (nought-IsAt scale) p) (λ v q. add-IsAt scale v d q p) h

  pub take_from-IsNet :
      (scale id : ℕ) (d : Decimal) (net : Net lib)
      → IsAt scale d
      → IsNet scale net
      → IsNet scale (take_from lib id d net)
  take_from-IsNet scale id d net p h =
      update-IsNet scale id (λ v. sub (or_nought lib v) d) net
        (sub-IsAt scale nought d (nought-IsAt scale) p) (λ v q. sub-IsAt scale v d q p) h
