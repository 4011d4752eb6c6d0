-- ===== src/Splits/Balance.antt =====
-- src/modules/splits/balance.engine.ts, and `netFromExpense` of expense-split.service.ts: from the
-- expenses of a group to the net of each user and the transfers that settle them. `none` stands for
-- the error at a text that is no number.
pub mod Nets
pub mod Settled
mod Tests
use qisma_be.Prelude.{ℕ, Bool, not, Option, none, some, List, [], ◌∷◌, map, if◌then◌else◌}
use qisma_be.Splits.Decimal.{DecimalLib}
use qisma_be.Splits.Shares.{update}
use qisma_be.Splits.Debt.{Transfer, Transfers, simplify}

-- `ExpenseBalanceEntry`
pub record Entry (T : Type 0) : Type 0 where
  pub paid_by : ℕ
  pub total : T
  pub owed : List (ℕ × T)

-- `GroupBalanceEdge`
pub record Edge (T : Type 0) : Type 0 where
  pub group_id : ℕ
  pub from_user_id : ℕ
  pub to_user_id : ℕ
  pub amount : T

pub record Balances (T : Type 0) : Type 0 where
  pub net_by_user_id : List (ℕ × T)
  pub transfers : List (Transfer T)
  pub edges : List (Edge T)

module _ (lib : DecimalLib) where
  open lib use {Decimal, Text, parse, to_string, nought, add, sub, to_dp, is_zero}

  -- A `Map` from users to numbers.
  abbrev pub Net : Type 0
  Net = List (ℕ × Decimal)

  abbrev pub or_nought : Option Decimal → Decimal
  or_nought none = nought
  or_nought (some d) = d

  -- `net.set(id, (net.get(id) ?? 0).sub(d))`, and the same with `add`.
  abbrev pub take_from : ℕ → Decimal → Net → Net
  take_from id d = update id (λ v. sub (or_nought v) d)

  abbrev pub give_to : ℕ → Decimal → Net → Net
  give_to id d = update id (λ v. add (or_nought v) d)

  unfoldable pub take_owed : List (ℕ × Text) → Net → Option Net
  take_owed [] net = some net
  take_owed ((id, raw) ∷ es) net =
      let rest = λ (d : Decimal). take_owed es (take_from id d net) in
      elim (parse raw) [ none ↦ none | some d ↦ rest d ]

  unfoldable pub net_from_expense : Entry Text → Option Net
  unfolding take_owed
  net_from_expense e = elim (parse e.total) [
    | none ↦ none
    | some total ↦ elim (take_owed e.owed []) [
      | none ↦ none
      | some net ↦ some (give_to e.paid_by total net)
    ]
  ]

  -- The inner loop: each delta is added to the account of its user.
  abbrev pub add_all : Net → Net → Net
  add_all [] net = net
  add_all ((id, v) ∷ delta) net = add_all delta (give_to id v net)

  unfoldable pub net_of_all : List (Entry Text) → Net → Option Net
  net_of_all [] net = some net
  net_of_all (e ∷ es) net =
      let rest = λ (delta : Net). net_of_all es (add_all delta net) in
      elim (net_from_expense e) [ none ↦ none | some delta ↦ rest delta ]

  -- `netByUserId`: rounded, without zeros.
  unfoldable pub net_texts : ℕ → Net → List (ℕ × Text)
  net_texts scale [] = []
  net_texts scale ((id, v) ∷ net) =
      let rest = net_texts scale net in
      let r = to_dp v scale in if is_zero r then rest else (id, to_string r) ∷ rest

  unfoldable pub compute_group_balances : ℕ → List (Entry Text) → ℕ → Option (Balances Text)
  unfolding net_of_all net_texts
  compute_group_balances group entries scale = elim (net_of_all entries []) [
    | none ↦ none
    | some net ↦ elim (simplify lib (net_texts scale net) scale) [
      | none ↦ none
      | some transfers ↦ some (record {
        net_by_user_id = net_texts scale net;
        transfers = transfers;
        edges =
            map
              (λ t. record {
                group_id = group;
                from_user_id = t.from_user_id;
                to_user_id = t.to_user_id;
                amount = t.amount;
              })
              transfers;
      })
    ]
  ]
