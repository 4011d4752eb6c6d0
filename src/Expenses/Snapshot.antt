-- ===== src/Expenses/Snapshot.antt =====
-- src/modules/expenses/expenses.service.ts, `ensureBalanceSnapshot`, and group-balance-cache.service.ts:
-- the balances of a group, kept in the cache until a write to the group drops them.
pub mod Coherent
use qisma_be.Prelude.{
  ℕ, zero, suc, Bool, not, ◌&&◌, Option, none, some, List, [], ◌∷◌, map, ltb, ◌==◌, if◌then◌else◌,
  find?, keep,
}
use qisma_be.Prelude.Handler.{pure, throw}
use qisma_be.Splits.Decimal.{DecimalLib}
use qisma_be.Splits.Shares.{update}
use qisma_be.Splits.Balance.{Entry, Balances, compute_group_balances}
use qisma_be.Expenses.Store.{Expense, Participant, Snapshot, World, not_a_number, Action, is_live}

-- `'INR'`
abbrev pub inr_code : ℕ
inr_code = 0

-- `currencyCounts`
abbrev pub count_currencies : {T : Type 0} → List (Expense T) → List (ℕ × ℕ) → List (ℕ × ℕ)
count_currencies [] counts = counts
count_currencies (e ∷ es) counts =
    count_currencies es (update e.currency (λ v. elim v [ none ↦ 1 | some n ↦ suc n ]) counts)

-- The loop for `dominantCurrency`: the first of those that are most frequent.
abbrev pub dominant : List (ℕ × ℕ) → ℕ → ℕ → ℕ
dominant [] currency best = currency
dominant ((c, n) ∷ counts) currency best =
    let more = dominant counts c n in
    let less = dominant counts currency best in if ltb best n then more else less

module _ (lib : DecimalLib) where
  open lib use {Text}

  -- `findMany({ where: { groupId, deletedAt: null } })`
  abbrev pub of_group : ℕ → Expense Text → Bool
  of_group group_id e = e.group_id == group_id && is_live e.deleted_at

  -- An `ExpenseBalanceEntry`, from the rows of the tables.
  abbrev pub entry_of : List (Participant Text) → Expense Text → Entry Text
  entry_of ps e = record {
    paid_by = e.paid_by;
    total = e.amount;
    owed = map (λ p. (p.user_id, p.owed_amount)) (keep (λ p. p.expense_id == e.id) ps);
  }

  -- The snapshot that the expenses of a group and their participants give.
  unfoldable pub snapshot_from :
      ℕ → List (Expense Text) → List (Entry Text) → Option (Snapshot Text)
  snapshot_from group_id es entries = elim (compute_group_balances lib group_id entries 2) [
    | none ↦ none
    | some b ↦ some (record {
      dominant_currency = dominant (count_currencies es []) inr_code 0;
      balances = map (λ e. (e.from_user_id, e.to_user_id, e.amount)) b.edges;
      net_by_user_id = b.net_by_user_id;
    })
  ]

  abbrev pub snapshot_of : ℕ → World Text → Option (Snapshot Text)
  snapshot_of group_id w =
      let es = keep (of_group group_id) w.expenses in
      snapshot_from group_id es (map (entry_of w.participants) es)

  -- `GroupBalanceCacheService.get`, `set` and `invalidate`.
  abbrev pub cached : ℕ → World Text → Option (ℕ × Snapshot Text)
  cached group_id w = find? (λ c. c.0 == group_id) w.cache

  unfoldable pub set_cache : ℕ → Snapshot Text → World Text → World Text
  set_cache group_id s w = record w {
    cache = (group_id, s) ∷ keep (λ c. not (c.0 == group_id)) w.cache;
  }

  unfoldable pub invalidate : ℕ → World Text → World Text
  invalidate group_id w = record w { cache = keep (λ c. not (c.0 == group_id)) w.cache }

  -- `ensureBalanceSnapshot`
  unfoldable pub ensure_balance_snapshot : ℕ → Action Text (Snapshot Text)
  ensure_balance_snapshot group_id w = elim (cached group_id w) [
    | some (g, s) ↦ pure s w
    | none ↦ elim (snapshot_of group_id w) [
      | none ↦ throw not_a_number w
      | some s ↦ pure s (set_cache group_id s w)
    ]
  ]
