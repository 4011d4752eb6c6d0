-- ===== src/Splits/Balance/Settled.antt =====
-- `computeGroupBalances` as a whole, against what the users have paid and owe.
use qisma_be.Prelude.{
  ℕ, ◌+◌, ◌*◌, ◌≤◌, ◌≡◌, refl, sym, ap, ◌∙◌, ◌⊎◌, inl, inr, Bool, true, false, some, List, [], ◌∷◌,
  arith, length, map, ◌==◌, if◌then◌else◌, All, Bool-cases,
}
use qisma_be.Prelude.Int.{
  ℤ, pos, pos_part, neg_part, ◌+ℤ◌, ◌-ℤ◌, zero-+ℤ, +ℤ-zero, int_laws, +ℤ_parts, eq_of_parts,
}
use qisma_be.Splits.Decimal.{DecimalLib, IsExact}
use qisma_be.Splits.Debt.Transfers.{paid_by, paid_to, paid_in_all, speck}
use qisma_be.Splits.Debt.Simplify.{
  Parses, rounded, owes, gets, owes_in_all, gets_in_all, simplify_settles,
}
use qisma_be.Splits.Balance.{
  Entry, Balances, Net, take_from, give_to, take_owed, net_from_expense, add_all, net_of_all,
  net_texts, compute_group_balances,
}
use qisma_be.Splits.Balance.Nets.{
  amount, owed_by, net_of, held, net_of_all-held, IsAmountText, IsEntry, Absent, IsNet,
  give_to-IsNet, take_from-IsNet,
}

cancel : (a : ℤ) → a -ℤ a +ℤ pos 0 ≡ pos 0
cancel a = eq_of_parts (a -ℤ a +ℤ pos 0) (pos 0) (omega int_laws)

module _ (lib : DecimalLib) (laws : IsExact lib) (scale : ℕ) where
  open lib use {Decimal, Text, parse, to_string, to_dp, is_zero}
  open laws use {value, IsAt, parse-to_string, is_zero-value, to_dp-eq}

  take_owed-some :
      (es : List (ℕ × Text)) (net : Net lib)
      → All (λ p. IsAmountText lib laws scale p.1) es
      → IsNet lib laws scale net
      → (net' : Net lib) × (take_owed lib es net ≡ some net') × IsNet lib laws scale net'
  unfolding take_owed
  take_owed-some [] net h n = (net, refl, n)
  take_owed-some ((id, raw) ∷ es) net ((d, p, a), h) n =
      let (net', e, k) =
        take_owed-some es (take_from lib id d net) h
          (take_from-IsNet lib laws scale id d net a n) in
      (net', ground (arith, p, e), k)

  add_all-IsNet :
      (delta net : Net lib)
      → IsNet lib laws scale delta
      → IsNet lib laws scale net
      → IsNet lib laws scale (add_all lib delta net)
  add_all-IsNet [] net d n = n
  add_all-IsNet ((id, v) ∷ delta) net (_, a, d) n =
      add_all-IsNet delta (give_to lib id v net) d (give_to-IsNet lib laws scale id v net a n)

  net_of_all-some :
      (es : List (Entry Text)) (net : Net lib)
      → All (IsEntry lib laws scale) es
      → IsNet lib laws scale net
      → (net' : Net lib) × (net_of_all lib es net ≡ some net') × IsNet lib laws scale net'
  unfolding net_of_all net_from_expense
  net_of_all-some [] net h n = (net, refl, n)
  net_of_all-some (e ∷ es) net (((d, p, a), o), h) n =
      let (taken, q, k) = take_owed-some e.owed [] o tt in
      let delta = give_to lib e.paid_by d taken in
      let (net', r, m) =
        net_of_all-some es (add_all lib delta net) h
          (add_all-IsNet delta net (give_to-IsNet lib laws scale e.paid_by d taken a k) n) in
      (net', ground (arith, p, q, r), m)

  texts-Parses : (net : Net lib) → Parses lib laws scale (net_texts lib scale net)
  unfolding net_texts
  texts-Parses [] = tt
  texts-Parses ((id, v) ∷ net) = elim (Bool-cases (is_zero (to_dp v scale))) [
    | inl z ↦ rw z (texts-Parses net)
    | inr z ↦ rw z ((to_dp v scale, parse-to_string (to_dp v scale)), texts-Parses net)
  ]

  rounded_text :
      (v : Decimal) → IsAt scale v → rounded lib laws scale (to_string (to_dp v scale)) ≡ value v
  rounded_text v a = ground (arith, parse-to_string (to_dp v scale), to_dp-eq v scale a)

  -- One account as the entry of `net_texts` that it becomes.
  entry_parts :
      (id : ℕ) (v : Decimal) (net : Net lib)
      → IsAt scale v
      → let ts = net_texts lib scale ((id, v) ∷ net) in
        let rest = net_texts lib scale net in
        ((user : ℕ)
          → (owes lib laws scale user ts
              ≡ (if id == user then neg_part (value v) else 0) + owes lib laws scale user rest)
            × (gets lib laws scale user ts
                ≡ (if id == user then pos_part (value v) else 0) + gets lib laws scale user rest))
        × (owes_in_all lib laws scale ts ≡ neg_part (value v) + owes_in_all lib laws scale rest)
        × (gets_in_all lib laws scale ts ≡ pos_part (value v) + gets_in_all lib laws scale rest)
  unfolding net_texts
  entry_parts id v net a = elim (Bool-cases (is_zero (to_dp v scale))) [
    | inl z ↦
        let (p, n) = zero_parts v a z in
        rw z ((λ user. (ground (arith, n), ground (arith, p))), omega (arith, n), omega (arith, p))
    | inr z ↦ let e = rounded_text v a in rw (z, e) ((λ user. (refl, refl)), refl, refl)
  ]
    where
      zero_parts :
          (v : Decimal)
          → IsAt scale v
          → is_zero (to_dp v scale) ≡ true
          → (pos_part (value v) ≡ 0) × (neg_part (value v) ≡ 0)
      zero_parts v a z = (
        ground (arith, to_dp-eq v scale a, is_zero-value v),
        ground (arith, to_dp-eq v scale a, is_zero-value v),
      )

  -- Debts and claims of the entries differ as the accounts together do.
  all_parts :
      (net : Net lib)
      → IsNet lib laws scale net
      → let all = held lib laws (λ _. true) net in
        let ts = net_texts lib scale net in
        pos_part all + owes_in_all lib laws scale ts ≡ neg_part all + gets_in_all lib laws scale ts
  unfolding net_texts
  all_parts [] n = refl
  all_parts ((id, v) ∷ net) (_, a, n) =
      let (_, o, g) = entry_parts id v net a in
      omega (arith, o, g, all_parts net n, +ℤ_parts (value v) (held lib laws (λ _. true) net))

  Absent-parts :
      (user : ℕ) (net : Net lib)
      → IsNet lib laws scale net
      → Absent lib laws user net
      → (held lib laws (λ k. k == user) net ≡ pos 0)
        × (owes lib laws scale user (net_texts lib scale net) ≡ 0)
        × (gets lib laws scale user (net_texts lib scale net) ≡ 0)
  unfolding net_texts
  Absent-parts user [] n h = (refl, refl, refl)
  Absent-parts user ((id, v) ∷ net) (_, a, n) (ne, h) =
      let (each, _, _) = entry_parts id v net a in
      let (x, y, z) = Absent-parts user net n h in
      let off : (id == user) ≡ false = ground arith in
      (
        rw off (ap (λ w. pos 0 +ℤ w) x ∙ zero-+ℤ (pos 0)),
        ground (arith, each user),
        ground (arith, each user),
      )

  user_parts :
      (user : ℕ) (net : Net lib)
      → IsNet lib laws scale net
      → let own = held lib laws (λ k. k == user) net in
        (owes lib laws scale user (net_texts lib scale net) ≡ neg_part own)
        × (gets lib laws scale user (net_texts lib scale net) ≡ pos_part own)
  unfolding net_texts
  user_parts user [] n = (refl, refl)
  user_parts user ((id, v) ∷ net) (ab, a, n) =
      let (each, _, _) = entry_parts id v net a in
      elim (Bool-cases (id == user)) [
        | inl e ↦
            let same : id ≡ user = ground arith in
            let (x, y, z) = Absent-parts user net n (rw same at ab) in
            let own : (if id == user then value v else pos 0) +ℤ held lib laws (λ k. k == user) net
                ≡ value v =
              rw e (ap (λ w. value v +ℤ w) x ∙ +ℤ-zero (value v)) in
            (
              (each user).0 ∙ rw e (omega (arith, y)) ∙ ap neg_part (sym own),
              (each user).1 ∙ rw e (omega (arith, z)) ∙ ap pos_part (sym own),
            )
        | inr e ↦
            let (y, z) = user_parts user net n in
            let rest = held lib laws (λ k. k == user) net in
            let own : (if id == user then value v else pos 0) +ℤ rest ≡ rest =
              rw e (zero-+ℤ rest) in
            (
              (each user).0 ∙ rw e (omega (arith, y)) ∙ ap neg_part (sym own),
              (each user).1 ∙ rw e (omega (arith, z)) ∙ ap pos_part (sym own),
            )
      ]

  -- Where the amounts of all expenses are texts of numbers of at most `scale` places, and all numbers
  -- fit the 20 digits of decimal.js,
  -- `computeGroupBalances` returns, and its net amounts are exactly what each user has paid less what
  -- that user owes: a debt where that is negative, a claim where it is positive. By the transfers no
  -- user pays more than that debt or gets more than that claim. All debts and all claims differ by
  -- what the users have paid more or less than they owe in all, and the transfers add up to all
  -- debts or to all claims but for at most one unit of the scale for each net amount.
  pub balances_are_net :
      (group : ℕ) (es : List (Entry Text))
      → All (IsEntry lib laws scale) es
      → (b : Balances Text) × (compute_group_balances lib group es scale ≡ some b)
        × ((user : ℕ)
            → let own = net_of lib laws (λ k. k == user) es in
              (owes lib laws scale user b.net_by_user_id ≡ neg_part own)
              × (gets lib laws scale user b.net_by_user_id ≡ pos_part own)
              × (paid_by lib laws user b.transfers ≤ neg_part own)
              × (paid_to lib laws user b.transfers ≤ pos_part own))
        × (pos_part (net_of lib laws (λ _. true) es) + owes_in_all lib laws scale b.net_by_user_id
            ≡ neg_part (net_of lib laws (λ _. true) es)
              + gets_in_all lib laws scale b.net_by_user_id)
        × (let all =
              paid_in_all lib laws b.transfers + length b.net_by_user_id * speck lib laws scale in
            (owes_in_all lib laws scale b.net_by_user_id ≤ all)
            ⊎ (gets_in_all lib laws scale b.net_by_user_id ≤ all))
  unfolding compute_group_balances
  balances_are_net group es h =
      let (net, e, n) = net_of_all-some es [] h tt in
      let texts = net_texts lib scale net in
      let (ts, s, few, by, to, side) = simplify_settles lib laws scale texts (texts-Parses net) in
      let same : (who : ℕ → Bool) → held lib laws who net ≡ net_of lib laws who es =
        λ who. net_of_all-held lib laws who es [] net e ∙ +ℤ-zero (net_of lib laws who es) in
      (
        record {
          net_by_user_id = texts;
          transfers = ts;
          edges =
              map
                (λ t. record {
                  group_id = group;
                  from_user_id = t.from_user_id;
                  to_user_id = t.to_user_id;
                  amount = t.amount;
                })
                ts;
        },
        ground (arith, e, s),
        (λ user.
            let (o, g) = user_parts user net n in
            let w = same (λ k. k == user) in
            let o' = o ∙ ap neg_part w in
            let g' = g ∙ ap pos_part w in
            (o', g', omega (arith, by user, o'), omega (arith, to user, g'))),
        omega (
          arith,
          all_parts net n,
          ap pos_part (same (λ _. true)),
          ap neg_part (same (λ _. true)),
        ),
        side,
      )

  balanced_net :
      (es : List (Entry Text))
      → All (λ e. owed_by lib laws (λ _. true) e.owed ≡ amount lib laws e.total) es
      → net_of lib laws (λ _. true) es ≡ pos 0
  balanced_net [] h = refl
  balanced_net (e ∷ es) (p, h) =
      ap (λ z. amount lib laws e.total -ℤ z +ℤ net_of lib laws (λ _. true) es) p
      ∙ ap (λ z. amount lib laws e.total -ℤ amount lib laws e.total +ℤ z) (balanced_net es h)
      ∙ cancel (amount lib laws e.total)

  -- If besides, as long as all numbers fit the 20 digits of decimal.js, the shares of each expense add up to its amount, then debts and claims are equal in
  -- all, and the transfers settle both but for at most one unit of the scale for each user.
  pub balanced_settles :
      (group : ℕ) (es : List (Entry Text))
      → All (IsEntry lib laws scale) es
      → All (λ e. owed_by lib laws (λ _. true) e.owed ≡ amount lib laws e.total) es
      → (b : Balances Text) × (compute_group_balances lib group es scale ≡ some b)
        × (owes_in_all lib laws scale b.net_by_user_id
            ≡ gets_in_all lib laws scale b.net_by_user_id)
        × (gets_in_all lib laws scale b.net_by_user_id
            ≤ paid_in_all lib laws b.transfers + length b.net_by_user_id * speck lib laws scale)
  balanced_settles group es h q =
      let (b, e, _, parts, side) = balances_are_net group es h in
      let z = balanced_net es q in
      let equal : owes_in_all lib laws scale b.net_by_user_id
          ≡ gets_in_all lib laws scale b.net_by_user_id =
        omega (arith, parts, ap pos_part z, ap neg_part z) in
      (b, e, equal, omega (arith, side, equal))
