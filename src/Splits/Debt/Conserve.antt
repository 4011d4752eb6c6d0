-- ===== src/Splits/Debt/Conserve.antt =====
-- The loop of `simplify`: it ends, its transfers are few, nobody overpays, and one side is settled.

use qisma_be.Prelude.{
  ℕ, zero, suc, ◌+◌, ◌-◌, ◌≤◌, ◌<◌, ◌≡◌, refl, ◌⊎◌, inl, inr, some, [], ◌∷◌, arith, length, leb,
  Bool-cases,
}
use qisma_be.Prelude.Int.{neg_part}
use qisma_be.Splits.Decimal.{DecimalLib, IsExact}
use qisma_be.Splits.Debt.{Party, Parties, Transfers, after, emit, settle}
use qisma_be.Splits.Debt.Transfers.{
  units, worth, IsAmount, AreOwed, owed, owed_in_all, paid_by, paid_to, paid_in_all, speck,
  allowance, is_dust_lem, pay_lem, after-AreOwed, owed-after, owed_in_all-after, length-after-le,
  length-after_full, neg_part-zero,
}

module _ (lib : DecimalLib) (exact : IsExact lib) (scale : ℕ) where
  open lib use {
    Decimal, Text, parse, to_string, sub, neg, min, lte, gt, is_zero, is_negative, to_dp,
    ten_pow_neg,
  }
  open exact use {value, parse-to_string, gt-value, lte-value, ten_pow_neg_positive}

  -- No user pays or receives more than is owed, one of the two sides is settled but for at most
  -- one smallest amount for each party, and there are fewer transfers than parties.
  pub record Settles (ds cs : Parties lib) (ts : Transfers lib) : Type 0 where
    pub paid_by_le : (user : ℕ) → paid_by lib exact user ts ≤ owed lib exact user ds
    pub paid_to_le : (user : ℕ) → paid_to lib exact user ts ≤ owed lib exact user cs
    pub short :
        (owed_in_all lib exact ds ≤ paid_in_all lib exact ts + allowance lib exact scale ds)
        ⊎ (owed_in_all lib exact cs ≤ paid_in_all lib exact ts + allowance lib exact scale cs)
    pub few : length ts ≤ length ds + length cs - 1

  emit_lem :
      (pay : Decimal) (d c : Party Decimal) (out : Transfers lib)
      → neg_part (value pay) ≡ 0
      → speck lib exact scale < units lib exact pay
      → emit lib scale pay d c out
        ≡ record { from_user_id = d.id; to_user_id = c.id; amount = to_string pay } ∷ out
  unfolding emit
  emit_lem pay d c out n h = ground (
    arith,
    gt-value pay (ten_pow_neg scale),
    neg_part-zero (value (ten_pow_neg scale)) (ten_pow_neg_positive scale),
  )

  worth-to_string : (d : Decimal) → worth lib exact (to_string d) ≡ units lib exact d
  worth-to_string d = rw (parse-to_string d, worth)

  -- The rounds that leave out a party of which only dust is left.
  skip_debtor :
      (d : Party Decimal) (ds cs : Parties lib) (ts : Transfers lib)
      → units lib exact d.amt ≤ speck lib exact scale
      → Settles ds cs ts
      → Settles (d ∷ ds) cs ts
  skip_debtor d ds cs ts small s = record {
    paid_by_le = λ user. omega (arith, s.paid_by_le user);
    paid_to_le = s.paid_to_le;
    short = ground (arith, s.short);
    few = omega (arith, s.few);
  }

  skip_creditor :
      (c : Party Decimal) (ds cs : Parties lib) (ts : Transfers lib)
      → units lib exact c.amt ≤ speck lib exact scale
      → Settles ds cs ts
      → Settles ds (c ∷ cs) ts
  skip_creditor c ds cs ts small s = record {
    paid_by_le = s.paid_by_le;
    paid_to_le = λ user. omega (arith, s.paid_to_le user);
    short = ground (arith, s.short);
    few = omega (arith, s.few);
  }

  -- The round that pays.
  module _ (d c : Party Decimal) (ds cs : Parties lib) (id : IsAmount lib exact scale d.amt)
      (ic : IsAmount lib exact scale c.amt)
      (large_d : speck lib exact scale < units lib exact d.amt)
      (large_c : speck lib exact scale < units lib exact c.amt) where
    abbrev pay : Decimal
    pay = to_dp (min d.amt c.amt) scale

    abbrev next_ds : Parties lib
    next_ds = after lib scale pay d ds

    abbrev next_cs : Parties lib
    next_cs = after lib scale pay c cs

    -- At least one of the two parties is done.
    round_shrinks : length next_ds + length next_cs ≤ length ds + length cs + 1
    round_shrinks =
        let (ip, le_d, le_c, full) = pay_lem lib exact scale d.amt c.amt id ic in
        let len_d = length-after-le lib exact scale pay d ds ip id le_d in
        let len_c = length-after-le lib exact scale pay c cs ip ic le_c in
        elim full [
          | inl e ↦ omega (arith, length-after_full lib exact scale pay d ds ip id le_d e)
          | inr e ↦ omega (arith, length-after_full lib exact scale pay c cs ip ic le_c e)
        ]

    round_pays :
        (ts : Transfers lib)
        → Settles next_ds next_cs ts
        → Settles (d ∷ ds) (c ∷ cs) (emit lib scale pay d c ts)
    round_pays ts s =
        let (ip, le_d, le_c, full) = pay_lem lib exact scale d.amt c.amt id ic in
        let w = worth-to_string pay in
        let shorter_d = owed_in_all-after lib exact scale pay d ds ip id le_d in
        let shorter_c = owed_in_all-after lib exact scale pay c cs ip ic le_c in
        let big : speck lib exact scale < units lib exact pay = ground arith in
        rw (emit_lem pay d c ts ip.1 big) (record {
          paid_by_le = λ user.
              ground
                (arith, w, s.paid_by_le user, owed-after lib exact scale pay d ds ip id le_d user);
          paid_to_le = λ user.
              ground
                (arith, w, s.paid_to_le user, owed-after lib exact scale pay c cs ip ic le_c user);
          short = ground (arith, w, s.short);
          few = omega (arith, s.few, round_shrinks);
        })

  pub settle-Settles :
      (fuel : ℕ) (ds cs : Parties lib)
      → AreOwed lib exact scale ds
      → AreOwed lib exact scale cs
      → length ds + length cs ≤ fuel
      → (ts : Transfers lib) × (settle lib scale fuel ds cs ≡ some ts) × Settles ds cs ts
  unfolding settle
  settle-Settles fuel [] cs hd hc h = ([], refl, ground arith)
  settle-Settles zero (d ∷ ds) cs hd hc h = absurd (omega arith)
  settle-Settles (suc fuel) (d ∷ ds) [] hd hc h = ([], refl, ground arith)
  settle-Settles (suc fuel) (d ∷ ds) (c ∷ cs) (id, hd) (ic, hc) h =
      let test_d = is_dust_lem lib exact scale d.amt id.1 in
      let test_c = is_dust_lem lib exact scale c.amt ic.1 in
      elim (Bool-cases (leb (units lib exact d.amt) (speck lib exact scale))) [
        | inl e ↦
            let (ts, run, s) = settle-Settles fuel ds (c ∷ cs) hd (ic, hc) (omega arith) in
            (ts, rw (test_d, e) run, skip_debtor d ds (c ∷ cs) ts (ground arith) s)
        | inr e ↦ elim (Bool-cases (leb (units lib exact c.amt) (speck lib exact scale))) [
          | inl e' ↦
              let (ts, run, s) = settle-Settles fuel (d ∷ ds) cs (id, hd) hc (omega arith) in
              (ts, rw (test_d, e, test_c, e') run, skip_creditor c (d ∷ ds) cs ts (ground arith) s)
          | inr e' ↦
              let (ip, le_d, le_c, full) = pay_lem lib exact scale d.amt c.amt id ic in
              let (ts, run, s) =
                settle-Settles fuel (next_ds d c ds cs id ic (ground arith) (ground arith))
                  (next_cs d c ds cs id ic (ground arith) (ground arith))
                  (after-AreOwed lib exact scale (to_dp (min d.amt c.amt) scale) d ds ip id le_d hd)
                  (after-AreOwed lib exact scale (to_dp (min d.amt c.amt) scale) c cs ip ic le_c hc)
                  (omega (arith, round_shrinks d c ds cs id ic (ground arith) (ground arith))) in
              (
                emit lib scale (to_dp (min d.amt c.amt) scale) d c ts,
                rw (test_d, e, test_c, e', run) refl,
                round_pays d c ds cs id ic (ground arith) (ground arith) ts s,
              )
        ]
      ]
