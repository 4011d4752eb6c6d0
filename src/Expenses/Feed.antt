-- ===== src/Expenses/Feed.antt =====
-- `listGroupExpenseFeed` of src/modules/expenses/expenses.service.ts. The rows are returned as they
-- are, before `mapFeedItem` renders them; `contains` is the database's search in a title.
pub mod Walk
mod Tests
use qisma_be.Prelude.{
  ℕ, suc, Bool, true, not, ◌&&◌, ◌||◌, Option, none, some, List, leb, ◌==◌, if◌then◌else◌, find?,
}
use qisma_be.Prelude.Result.{Result, ok, err}
use qisma_be.Prelude.Handler.{◌>>=◌, ◌>>◌, pure, gets, or_throw, or_err, throw_if}
use qisma_be.Groups.Store.{User, GroupError, find_user}
use qisma_be.Expenses.Paging.{Key, desc, beyond, clamp, Page, find_many, page_of}
use qisma_be.Expenses.Cursor.{
  CursorLib, CursorError, FeedSort, created_at, expense_date, FeedCursor, decode_feed, encode_feed,
}
use qisma_be.Expenses.Store.{
  Expense, World, ExpenseError, group, cursor, invalid_date, Action, active_member, is_live,
}

-- `ListExpensesQueryDto`
pub record FeedQuery (X : Type 0) : Type 0 where
  pub sort : Option FeedSort
  pub cursor : Option X
  pub limit : Option ℕ
  pub q : Option X
  pub category_id : Option ℕ
  pub from_date : Option X
  pub to_date : Option X
  pub include_deleted : Bool

abbrev pub sort_or : Option FeedSort → FeedSort
sort_or none = created_at
sort_or (some s) = s

module _ {T : Type 0} where
  -- What the feed is ordered by.
  abbrev pub feed_key : FeedSort → Expense T → Key
  feed_key created_at e = (e.created_at, e.id)
  feed_key expense_date e = (e.date, e.id)

  -- `assertExpenseFeedActor`
  unfoldable pub assert_feed_actor : ℕ → Action T User
  assert_feed_actor user = do
    u ← or_throw (← gets (λ w. find_user user w.groups)) (group GroupError.user_not_found)
    throw_if (not u.is_active) (group GroupError.account_inactive)
    pure u

module _ (lib : CursorLib) where
  open lib use {Text, is_empty, midnight}

  -- `if (x)` on a text that may be missing.
  unfoldable pub given : Option Text → Option Text
  given none = none
  given (some t) = if is_empty t then none else some t

  -- A bound of the dates: `parseYmd` where it is given.
  unfoldable pub bound : Option Text → Result ExpenseError (Option ℕ)
  bound none = ok none
  bound (some t) = elim (midnight t) [ none ↦ err invalid_date | some d ↦ ok (some d) ]

  abbrev pub as_cursor :
      Result CursorError (FeedCursor lib) → Result ExpenseError (Option (FeedCursor lib))
  as_cursor (ok c) = ok (some c)
  as_cursor (err e) = err (cursor e)

  -- The cursor of the query.
  unfoldable pub read_cursor :
      Option Text → FeedSort → Result ExpenseError (Option (FeedCursor lib))
  read_cursor none s = ok none
  read_cursor (some t) s = as_cursor (decode_feed lib (some t) s)

module _ (lib : CursorLib) {T : Type 0} (contains : ℕ → lib.Text → Bool) where
  open lib use {Text, is_empty, trim}

  abbrev by_title : Option Text → Expense T → Bool
  by_title none e = true
  by_title (some q) e = if is_empty (trim q) then true else contains e.title (trim q)

  abbrev by_category : Option ℕ → Expense T → Bool
  by_category none e = true
  by_category (some c) e = elim e.category_id [ none ↦ Bool.false | some d ↦ d == c ]

  abbrev from : Option ℕ → Expense T → Bool
  from none e = true
  from (some d) e = leb d e.date

  abbrev until : Option ℕ → Expense T → Bool
  until none e = true
  until (some d) e = leb e.date d

  -- `buildExpenseFeedFilters`, once the bounds are read.
  abbrev pub in_feed : ℕ → FeedQuery Text → Option ℕ → Option ℕ → Expense T → Bool
  in_feed group_id query low high e =
      e.group_id == group_id
      && (query.include_deleted || is_live e.deleted_at)
      && by_title query.q e
      && by_category query.category_id e
      && from low e
      && until high e

  -- The condition of the cursor.
  abbrev pub after_feed : Option (FeedCursor lib) → Expense T → Bool
  after_feed none e = true
  after_feed (some c) e = beyond desc (c.at, c.id) (feed_key c.sort e)

  -- `executeExpenseFeedQuery`
  unfoldable pub execute_feed_query : ℕ → FeedQuery Text → Action T (Page (Expense T) Text)
  execute_feed_query group_id query = do
    c ← or_err (λ e. e) (read_cursor lib (given lib query.cursor) (sort_or query.sort))
    low ← or_err (λ e. e) (bound lib (given lib query.from_date))
    high ← or_err (λ e. e) (bound lib (given lib query.to_date))
    rows ← gets λ w.
        find_many desc (feed_key (sort_or query.sort))
          (λ e. in_feed group_id query low high e && after_feed c e) (suc (clamp query.limit))
          w.expenses
    pure (
        page_of (λ e. encode_feed lib (sort_or query.sort) (feed_key (sort_or query.sort) e).0 e.id)
          (clamp query.limit) rows)

  -- `listGroupExpenseFeed`
  unfoldable pub list_group_expense_feed : ℕ → ℕ → FeedQuery Text → Action T (Page (Expense T) Text)
  unfolding assert_feed_actor execute_feed_query
  list_group_expense_feed actor group_id query = do
    assert_feed_actor actor
    active_member actor group_id
    execute_feed_query group_id query
