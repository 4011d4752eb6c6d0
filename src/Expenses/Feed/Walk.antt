-- ===== src/Expenses/Feed/Walk.antt =====
-- The feed of a group, page by page.
use qisma_be.Prelude.{
  ℕ, suc, ◌<◌, ◌≡◌, refl, ap, ◌∙◌, Bool, true, ◌&&◌, Option, none, some, List, ◌∷◌, arith, keep,
  take, All,
}
use mathlib.Core.Path.{subst}
use qisma_be.Prelude.Result.{Result, ok}
use qisma_be.Groups.Store.{User, Member, find_user}
use qisma_be.Groups.Rules.{require_active_member}
use qisma_be.Expenses.Paging.{desc, beyond, clamp, Page, page_of, find_many}
use qisma_be.Expenses.Paging.Order.{
  Differ, listed, find_many_lem, find_all, listed-Strict, listed-All, All-append,
}
use qisma_be.Expenses.Paging.Walk.{Walk, all-Walk, same-Walk}
use qisma_be.Expenses.Cursor.{
  FeedSort, created_at, expense_date, CursorLib, IsCursorLib, FeedCursor, encode_feed,
}
use qisma_be.Expenses.Cursor.Round.{cursor_time, feed_cursor_round}
use qisma_be.Expenses.Store.{Expense, World, ExpenseError}
use qisma_be.Expenses.Feed.{
  FeedQuery, sort_or, feed_key, given, bound, read_cursor, in_feed, after_feed, execute_feed_query,
  list_group_expense_feed,
}

pub clamp_positive : (n : Option ℕ) → 0 < clamp n
clamp_positive none = omega arith
clamp_positive (some n) = ground arith

module _ (lib : CursorLib) (laws : IsCursorLib lib) where
  open laws use {is_empty-encode}

  given-encode :
      (s : FeedSort) (t id : ℕ)
      → given lib (some (encode_feed lib s t id)) ≡ some (encode_feed lib s t id)
  unfolding encode_feed given
  given-encode created_at t id = rw (is_empty-encode _) refl
  given-encode expense_date t id = rw (is_empty-encode _) refl

module _ (lib : CursorLib) (laws : IsCursorLib lib) {T : Type 0}
    (contains : ℕ → lib.Text → Bool) where
  open lib use {Text}

  -- A time that a cursor of the feed keeps: before the year 10000, and a whole day where the feed is
  -- by the date of the expense.
  abbrev pub IsKept : FeedSort → Expense T → Type 0
  IsKept s e =
      let t = (feed_key s e).0 in (t < 253_402_300_800_000) × (cursor_time lib laws s t ≡ t)

  read_back :
      (s : FeedSort) (e : Expense T)
      → IsKept s e
      → read_cursor lib (given lib (some (encode_feed lib s (feed_key s e).0 e.id))) s
        ≡ ok (some (record { sort = s; at = (feed_key s e).0; id = e.id }))
  unfolding read_cursor
  read_back s e (h, k) =
      rw
        (
          given-encode lib laws s (feed_key s e).0 e.id,
          (feed_cursor_round lib laws s s (feed_key s e).0 e.id h).0,
          k,
        )
        refl

  module _ (group_id : ℕ) (query : FeedQuery Text) (low high : Option ℕ) (w : World T)
      (at_least : bound lib (given lib query.from_date) ≡ ok low)
      (at_most : bound lib (given lib query.to_date) ≡ ok high) where
    abbrev sort : FeedSort
    sort = sort_or query.sort

    -- The expenses that the query asks for, the latest first.
    abbrev pub asked : List (Expense T)
    asked = listed desc (feed_key sort) (in_feed lib contains group_id query low high) w.expenses

    abbrev enc : Expense T → Text
    enc e = encode_feed lib sort (feed_key sort e).0 e.id

    abbrev ask : Option Text → Result ExpenseError (Page (Expense T) Text)
    ask c = (execute_feed_query lib contains group_id (record query { cursor = c }) w).0

    execute_lem :
        (c : Option Text) (r : Option (FeedCursor lib))
        → read_cursor lib (given lib c) sort ≡ ok r
        → ask c
          ≡ ok (
              page_of enc (clamp query.limit) (
                find_many desc
                  (feed_key sort)
                  (λ e.
                    in_feed lib contains group_id query low high e && after_feed lib contains r e)
                  (suc (clamp query.limit))
                  w.expenses))
    unfolding execute_feed_query
    execute_lem c r e = ground (arith, e, at_least, at_most)

    no_cursor : read_cursor lib (given lib none) sort ≡ ok none
    unfolding read_cursor given
    no_cursor = refl

    ask-none :
        ask none ≡ ok (page_of enc (clamp query.limit) (take (suc (clamp query.limit)) asked))
    ask-none =
        execute_lem none none no_cursor
        ∙ ap (λ z. ok (page_of enc (clamp query.limit) z))
            (find_all desc (feed_key sort) (in_feed lib contains group_id query low high) w.expenses
              (suc (clamp query.limit)))

    ask-some :
        (e : Expense T)
        → IsKept sort e
        → ask (some (enc e))
          ≡ ok (
              page_of enc (clamp query.limit) (
                take
                  (suc (clamp query.limit))
                  (keep (λ y. beyond desc (feed_key sort e) (feed_key sort y)) asked)))
    ask-some e k =
        execute_lem (some (enc e)) _ (read_back sort e k)
        ∙ ap (λ z. ok (page_of enc (clamp query.limit) z)) (same_rows sort e)
      where
        same_rows :
            (s : FeedSort) (e : Expense T)
            → find_many desc
                (feed_key s)
                (λ y.
                  in_feed lib contains group_id query low high y
                  && beyond desc ((feed_key s e).0, e.id) (feed_key s y))
                (suc (clamp query.limit))
                w.expenses
              ≡ take (suc (clamp query.limit)) (
                  keep
                    (λ y. beyond desc (feed_key s e) (feed_key s y))
                    (listed desc
                      (feed_key s)
                      (in_feed lib contains group_id query low high)
                      w.expenses))
        same_rows created_at e =
            find_many_lem desc (feed_key created_at) (in_feed lib contains group_id query low high)
              w.expenses (some (feed_key created_at e)) (suc (clamp query.limit))
        same_rows expense_date e =
            find_many_lem desc (feed_key expense_date)
              (in_feed lib contains group_id query low high) w.expenses
              (some (feed_key expense_date e)) (suc (clamp query.limit))

    pages :
        Differ desc (feed_key sort) w.expenses → All (IsKept sort) w.expenses → Walk ask none asked
    pages d k =
        all-Walk enc (clamp query.limit) desc (feed_key sort) ask asked
          (listed-Strict desc (feed_key sort) (in_feed lib contains group_id query low high)
            w.expenses d)
          (λ x front rest at.
            ask-some x
              (All-append desc (feed_key sort) _ front (x ∷ rest) (
                subst (All (IsKept sort)) at (listed-All desc (feed_key sort) _ w.expenses _ k))).0)
          (clamp_positive query.limit) ask-none

  feed_lem :
      (actor group_id : ℕ) (query : FeedQuery Text) (w : World T) (u : User) (m : Member)
      → find_user actor w.groups ≡ some u
      → u.is_active ≡ true
      → (require_active_member actor group_id w.groups).0 ≡ ok m
      → (list_group_expense_feed lib contains actor group_id query w).0
        ≡ (execute_feed_query lib contains group_id query w).0
  unfolding list_group_expense_feed
  feed_lem actor group_id query w u m eu ea em = ground (arith, eu, ea, em)

  -- For an active account with an active row in the group, and bounds of dates that can be read:
  -- whoever asks for the first page of the feed and then follows each cursor comes to an end, and
  -- has got exactly the expenses that the query asks for, each once, the latest first and by
  -- falling id where the times are equal. No two expenses have the same id, and their times are
  -- before the year 10000 (a date of an expense is a whole day).
  pub feed-Walk :
      (actor group_id : ℕ) (query : FeedQuery Text) (low high : Option ℕ) (w : World T) (u : User)
      (m : Member)
      → find_user actor w.groups ≡ some u
      → u.is_active ≡ true
      → (require_active_member actor group_id w.groups).0 ≡ ok m
      → bound lib (given lib query.from_date) ≡ ok low
      → bound lib (given lib query.to_date) ≡ ok high
      → Differ desc (feed_key (sort_or query.sort)) w.expenses
      → All (IsKept (sort_or query.sort)) w.expenses
      → Walk
          (λ c.
            (list_group_expense_feed lib contains actor group_id (record query { cursor = c }) w).0)
          none
          (listed desc
            (feed_key (sort_or query.sort))
            (in_feed lib contains group_id query low high)
            w.expenses)
  feed-Walk actor group_id query low high w u m eu ea em el eh d k =
      same-Walk (λ c. ask group_id query low high w el eh c) _
        (λ c.
          let query' = record query { cursor = c } in feed_lem actor group_id query' w u m eu ea em)
        (pages group_id query low high w el eh d k)
