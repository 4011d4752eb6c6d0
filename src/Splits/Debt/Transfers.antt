-- ===== src/Splits/Debt/Transfers.antt =====
-- One round of the loop of `simplify`: what is paid, and what is left of the two parties.
use qisma_be.Prelude.{
  ℕ, suc, ◌+◌, ◌≤◌, ◌<◌, ◌≡◌, refl, ◌⊎◌, inl, inr, none, some, [], ◌∷◌, arith, if◌then◌else◌,
  length, ◌==◌, leb, All, Bool-cases,
}
use qisma_be.Prelude.Int.{ℤ, pos, negsuc, pos_part, neg_part, leb_ℤ, ◌-ℤ◌}
use qisma_be.Splits.Decimal.{DecimalLib, IsExact}
use qisma_be.Splits.Debt.{Party, Parties, Transfers, after}

pub neg_part-zero : (a : ℤ) → 0 < pos_part a → neg_part a ≡ 0
neg_part-zero (pos n) h = refl
neg_part-zero (negsuc n) h = absurd (omega arith)

pub leb_ℤ-eq :
    (a b : ℤ) → neg_part a ≡ 0 → neg_part b ≡ 0 → leb_ℤ a b ≡ leb (pos_part a) (pos_part b)
leb_ℤ-eq a b p q = ground arith

sub_nonneg :
    (a b : ℤ)
    → neg_part a ≡ 0
    → neg_part b ≡ 0
    → pos_part b ≤ pos_part a
    → (neg_part (a -ℤ b) ≡ 0) × (pos_part (a -ℤ b) + pos_part b ≡ pos_part a)
unfolding ◌-ℤ◌
sub_nonneg a b p q h = ground arith

module _ (lib : DecimalLib) (exact : IsExact lib) where
  open lib use {
    Decimal, Text, parse, to_string, sub, neg, min, lte, gt, is_zero, is_negative, to_dp,
    ten_pow_neg,
  }
  open exact use {
    value, IsAt, parse-to_string, value-sub, min_lem, lte-value, gt-value, to_dp-eq, sub-IsAt,
    ten_pow_neg_positive,
  }

  abbrev pub units : Decimal → ℕ
  units d = pos_part (value d)

  -- What a text of an amount stands for.
  abbrev pub worth : Text → ℕ
  worth t = elim (parse t) [ none ↦ 0 | some d ↦ units d ]

  -- Rounded to the scale, and not negative.
  abbrev pub IsAmount : ℕ → Decimal → Type 0
  IsAmount scale d = IsAt scale d × (neg_part (value d) ≡ 0)

  abbrev pub AreOwed : ℕ → Parties lib → Type 0
  AreOwed scale = All (λ p. IsAmount scale p.amt)

  -- The sum of the amounts of a user, and of all users.
  abbrev pub owed : ℕ → Parties lib → ℕ
  owed user [] = 0
  owed user (p ∷ ps) = (if p.id == user then units p.amt else 0) + owed user ps

  abbrev pub owed_in_all : Parties lib → ℕ
  owed_in_all [] = 0
  owed_in_all (p ∷ ps) = units p.amt + owed_in_all ps

  -- What a user pays, what a user receives, and what changes hands.
  abbrev pub paid_by : ℕ → Transfers lib → ℕ
  paid_by user [] = 0
  paid_by user (t ∷ ts) = (if t.from_user_id == user then worth t.amount else 0) + paid_by user ts

  abbrev pub paid_to : ℕ → Transfers lib → ℕ
  paid_to user [] = 0
  paid_to user (t ∷ ts) = (if t.to_user_id == user then worth t.amount else 0) + paid_to user ts

  abbrev pub paid_in_all : Transfers lib → ℕ
  paid_in_all [] = 0
  paid_in_all (t ∷ ts) = worth t.amount + paid_in_all ts

  module _ (scale : ℕ) where
    abbrev pub speck : ℕ
    speck = units (ten_pow_neg scale)

    -- The smallest amount of the scale, once for each party.
    abbrev pub allowance : Parties lib → ℕ
    allowance [] = 0
    allowance (p ∷ ps) = speck + allowance ps

    pub is_dust_lem :
        (d : Decimal) → neg_part (value d) ≡ 0 → lte d (ten_pow_neg scale) ≡ leb (units d) speck
    is_dust_lem d h = rw (lte-value d (ten_pow_neg scale)) (
        leb_ℤ-eq (value d) (value (ten_pow_neg scale)) h
          (neg_part-zero (value (ten_pow_neg scale)) (ten_pow_neg_positive scale)))

    -- The smaller of two amounts is paid.
    pub pay_lem :
        (a b : Decimal)
        → IsAmount scale a
        → IsAmount scale b
        → let pay = to_dp (min a b) scale in
          IsAmount scale pay
          × (units pay ≤ units a)
          × (units pay ≤ units b)
          × ((units pay ≡ units a) ⊎ (units pay ≡ units b))
    pay_lem a b (ia, na) (ib, nb) = elim (Bool-cases (lte a b)) [
      | inl e ↦
          rw (min_lem a b, e, to_dp-eq a scale ia)
            ((ia, na), omega arith, ground (arith, lte-value a b), inl refl)
      | inr e ↦
          rw (min_lem a b, e, to_dp-eq b scale ib)
            ((ib, nb), ground (arith, lte-value a b), omega arith, inr refl)
    ]

    module _ (pay : Decimal) (p : Party Decimal) (ps : Parties lib) (ip : IsAmount scale pay)
        (iq : IsAmount scale p.amt) (fits : units pay ≤ units p.amt) where
      left_lem : IsAmount scale (sub p.amt pay) × (units (sub p.amt pay) + units pay ≡ units p.amt)
      left_lem =
          let (n, u) = sub_nonneg (value p.amt) (value pay) iq.1 ip.1 fits in
          let e = value-sub p.amt pay in ((sub-IsAt scale p.amt pay iq.0 ip.0, rw e n), rw e u)

      pub after-AreOwed : AreOwed scale ps → AreOwed scale (after lib scale pay p ps)
      unfolding after
      after-AreOwed h = elim (Bool-cases (lte (sub p.amt pay) (ten_pow_neg scale))) [
        | inl e ↦ rw e h
        | inr e ↦ rw e (left_lem.0, h)
      ]

      pub owed-after :
          (user : ℕ)
          → (if p.id == user then units pay else 0) + owed user (after lib scale pay p ps)
            ≤ owed user (p ∷ ps)
      unfolding after
      owed-after user = ground (arith, left_lem)

      pub owed_in_all-after :
          owed_in_all (p ∷ ps) + allowance (after lib scale pay p ps)
          ≤ units pay + owed_in_all (after lib scale pay p ps) + allowance (p ∷ ps)
      unfolding after
      owed_in_all-after = ground (arith, left_lem, is_dust_lem (sub p.amt pay) left_lem.0.1)

      pub length-after-le : length (after lib scale pay p ps) ≤ suc (length ps)
      unfolding after
      length-after-le = ground arith

      -- A party whose whole amount is paid is done.
      pub length-after_full :
          units pay ≡ units p.amt → length (after lib scale pay p ps) ≡ length ps
      unfolding after
      length-after_full e = ground (arith, left_lem, is_dust_lem (sub p.amt pay) left_lem.0.1)
