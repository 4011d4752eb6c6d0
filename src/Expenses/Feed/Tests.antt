-- ===== src/Expenses/Feed/Tests.antt =====
-- The feed on inputs, over the texts of `Sample`: three expenses, two of one time, two to a page.
use qisma_be.Prelude.{ℕ, ◌≡◌, refl, true, false, none, some, [], ◌∷◌, arith}
use qisma_be.Prelude.Sort.{sort, insert}
use qisma_be.Groups.Store.{owner, Status}
use qisma_be.Groups.Rules.{require_active_member}
use qisma_be.Expenses.Paging.{desc}
use qisma_be.Expenses.Paging.Order.{listed}
use qisma_be.Expenses.Paging.Walk.{Walk}
use qisma_be.Expenses.Cursor.{created_at}
use qisma_be.Expenses.Cursor.Sample.{Sample, sample, sample-IsCursorLib}
use qisma_be.Expenses.Store.{World}
use qisma_be.Expenses.Tests.{one_group, spent}
use qisma_be.Expenses.Feed.{FeedQuery, feed_key, in_feed, bound, given, list_group_expense_feed}
use qisma_be.Expenses.Feed.Walk.{feed-Walk}

abbrev world : World ℕ
world = record {
  groups = one_group;
  expenses = spent 10 500 ∷ spent 11 900 ∷ spent 12 500 ∷ [];
  participants = [];
  payers = [];
  categories = [];
  subcategories = [];
  comments = [];
  reactions = [];
  logs = [];
  cache = [];
}

abbrev query : FeedQuery Sample
query = record {
  sort = none;
  cursor = none;
  limit = some 2;
  q = none;
  category_id = none;
  from_date = none;
  to_date = none;
  include_deleted = false;
}

in_order :
    listed desc
      (feed_key created_at)
      (in_feed sample (λ t q. true) 7 query none none)
      world.expenses
    ≡ spent 11 900 ∷ spent 12 500 ∷ spent 10 500 ∷ []
unfolding sort insert
in_order = refl

feed-Walk_example :
    Walk
      (λ c.
        (list_group_expense_feed sample (λ t q. true) 1 7 (record query { cursor = c }) world).0)
      none
      (listed desc
        (feed_key created_at)
        (in_feed sample (λ t q. true) 7 query none none)
        world.expenses)
unfolding require_active_member bound given
feed-Walk_example =
    feed-Walk sample sample-IsCursorLib (λ t q. true) 1 7 query none none world
      (record { id = 1; identifier = []; username = none; is_active = true })
      (record {
        group_id = 7;
        user_id = 1;
        role = owner;
        status = Status.active;
        added_by = none;
        joined_at = some 5;
        created_at = 5;
      })
      refl refl refl refl refl ((omega arith, (omega arith, tt)), ((omega arith, tt), (tt, tt)))
      ((omega arith, refl), ((omega arith, refl), ((omega arith, refl), tt)))
