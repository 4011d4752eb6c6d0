-- ===== src/Expenses/Tests.antt =====
-- Test data: a group with one member, and expenses of it.
use qisma_be.Prelude.{ℕ, true, none, some, [], ◌∷◌}
use qisma_be.Groups.Store.{owner, Status, Db}
use qisma_be.Splits.Shares.{SplitType}
use qisma_be.Expenses.Store.{Expense}

abbrev pub one_group : Db
one_group = record {
  users = record { id = 1; identifier = []; username = none; is_active = true } ∷ [];
  groups = record { id = 7; name = 0; type = 0; avatar_url = none; created_by = some 1 } ∷ [];
  members =
      record {
        group_id = 7;
        user_id = 1;
        role = owner;
        status = Status.active;
        added_by = none;
        joined_at = some 5;
        created_at = 5;
      }
      ∷ [];
  invites = [];
  events = [];
}

abbrev pub spent : ℕ → ℕ → Expense ℕ
spent id at = record {
  id = id;
  group_id = 7;
  created_by = 1;
  paid_by = 1;
  title = 0;
  amount = 100;
  currency = 0;
  split_type = SplitType.equal;
  category_id = none;
  subcategory_id = none;
  date = 0;
  created_at = at;
  updated_at = at;
  deleted_at = none;
}
