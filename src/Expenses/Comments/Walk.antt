-- ===== src/Expenses/Comments/Walk.antt =====
-- The comments of an expense, page by page.
use qisma_be.Prelude.{
  ℕ, suc, ◌≤◌, ◌≡◌, refl, ap, ◌∙◌, false, ◌&&◌, Option, none, some, List, ◌∷◌, arith, take, keep,
  All,
}
use mathlib.Core.Path.{subst}
use qisma_be.Prelude.Result.{Result, ok}
use qisma_be.Groups.Store.{Member}
use qisma_be.Groups.Rules.{require_active_member}
use qisma_be.Expenses.Paging.{Key, Direction, beyond, clamp, Page, page_of, find_many}
use qisma_be.Expenses.Paging.Order.{
  Differ, listed, find_many_lem, find_all, listed-Strict, listed-All, All-append,
}
use qisma_be.Expenses.Paging.Walk.{Walk, all-Walk, same-Walk}
use qisma_be.Expenses.Cursor.{CursorLib, IsCursorLib, encode_comment}
use qisma_be.Expenses.Cursor.Round.{comment_cursor_round}
use qisma_be.Expenses.Store.{Expense, Comment, World, ExpenseError, find_live}
use qisma_be.Expenses.Feed.{given}
use qisma_be.Expenses.Feed.Walk.{clamp_positive}
use qisma_be.Expenses.Comments.{
  CommentQuery, comment_key, in_thread, after_key, read_key, comments_page, list_comments,
  normalize_sort,
}

module _ (lib : CursorLib) (laws : IsCursorLib lib) where
  open lib use {Text, is_empty}
  open laws use {is_empty-encode}

  -- A time that a cursor of the comments keeps: any that a date may have.
  abbrev pub IsDate : Comment → Type 0
  IsDate c = c.created_at ≤ 8_640_000_000_000_000

  encode-filled :
      (c : Comment) (parent : Option ℕ) (dir : Direction)
      → is_empty (encode_comment lib c.created_at c.id parent dir) ≡ false
  unfolding encode_comment
  encode-filled c parent dir = is_empty-encode _

  read_back :
      (c : Comment) (parent : Option ℕ) (dir : Direction)
      → IsDate c
      → read_key lib (given lib (some (encode_comment lib c.created_at c.id parent dir))) parent dir
        ≡ ok (some (comment_key c))
  unfolding read_key given
  read_back c parent dir h =
      rw
        (
          encode-filled c parent dir,
          (comment_cursor_round lib laws c.created_at c.id parent parent dir dir h).0,
        )
        refl

  module _ {T : Type 0} (expense_id : ℕ) (query : CommentQuery Text) (dir : Direction)
      (w : World T) where
    -- The comments that the query asks for, in its order.
    abbrev asked : List Comment
    asked = listed dir comment_key (in_thread expense_id query.parent_comment_id) w.comments

    abbrev enc : Comment → Text
    enc c = encode_comment lib c.created_at c.id query.parent_comment_id dir

    abbrev ask : Option Text → Result ExpenseError (Page Comment Text)
    ask c = (comments_page lib expense_id (record query { cursor = c }) dir w).0

    page_lem :
        (c : Option Text) (k : Option Key)
        → read_key lib (given lib c) query.parent_comment_id dir ≡ ok k
        → ask c
          ≡ ok (
              page_of enc (clamp query.limit) (
                find_many dir comment_key
                  (λ c. in_thread expense_id query.parent_comment_id c && after_key lib dir k c)
                  (suc (clamp query.limit))
                  w.comments))
    unfolding comments_page
    page_lem c k e = ground (arith, e)

    no_cursor : read_key lib (given lib none) query.parent_comment_id dir ≡ ok none
    unfolding read_key given
    no_cursor = refl

    ask-none :
        ask none ≡ ok (page_of enc (clamp query.limit) (take (suc (clamp query.limit)) asked))
    ask-none =
        page_lem none none no_cursor
        ∙ ap (λ z. ok (page_of enc (clamp query.limit) z))
            (find_all dir comment_key (in_thread expense_id query.parent_comment_id) w.comments
              (suc (clamp query.limit)))

    ask-some :
        (c : Comment)
        → IsDate c
        → ask (some (enc c))
          ≡ ok (
              page_of enc (clamp query.limit) (
                take
                  (suc (clamp query.limit))
                  (keep (λ y. beyond dir (comment_key c) (comment_key y)) asked)))
    ask-some c h =
        page_lem (some (enc c)) (some (comment_key c)) (read_back c query.parent_comment_id dir h)
        ∙ ap (λ z. ok (page_of enc (clamp query.limit) z))
            (find_many_lem dir comment_key (in_thread expense_id query.parent_comment_id) w.comments
              (some (comment_key c)) (suc (clamp query.limit)))

    pages : Differ dir comment_key w.comments → All IsDate w.comments → Walk ask none asked
    pages d k =
        all-Walk enc (clamp query.limit) dir comment_key ask asked
          (listed-Strict dir comment_key (in_thread expense_id query.parent_comment_id) w.comments
            d)
          (λ x front rest at.
            ask-some x
              (All-append dir comment_key IsDate front (x ∷ rest) (
                subst (All IsDate) at (
                  listed-All dir comment_key (in_thread expense_id query.parent_comment_id)
                    w.comments IsDate k))).0)
          (clamp_positive query.limit) ask-none

  module _ {T : Type 0} where
    list_lem :
        (actor group_id expense_id : ℕ) (query : CommentQuery Text) (w : World T) (m : Member)
        (e : Expense T)
        → (require_active_member actor group_id w.groups).0 ≡ ok m
        → find_live expense_id group_id w ≡ some e
        → (list_comments lib actor group_id expense_id query w).0
          ≡ (comments_page lib expense_id query (normalize_sort lib query.sort) w).0
    unfolding list_comments
    list_lem actor group_id expense_id query w m e em ee = ground (arith, em, ee)

    -- For an active member of the group and an expense of it that is not deleted: whoever asks for
    -- the first page of its comments, or of the replies to one of them, and then follows each cursor
    -- comes to an end, and has got exactly those that are not deleted, each once, in the order of
    -- their times that the query asks for, by id where the times are equal. No two comments have the
    -- same id.
    pub comments-Walk :
        (actor group_id expense_id : ℕ) (query : CommentQuery Text) (w : World T) (m : Member)
        (e : Expense T)
        → (require_active_member actor group_id w.groups).0 ≡ ok m
        → find_live expense_id group_id w ≡ some e
        → Differ (normalize_sort lib query.sort) comment_key w.comments
        → All IsDate w.comments
        → Walk
            (λ c. (list_comments lib actor group_id expense_id (record query { cursor = c }) w).0)
            none
            (listed
              (normalize_sort lib query.sort)
              comment_key
              (in_thread expense_id query.parent_comment_id)
              w.comments)
    comments-Walk actor group_id expense_id query w m e em ee d k =
        let dir = normalize_sort lib query.sort in
        same-Walk (ask expense_id query dir w) _
          (λ c.
            let query' = record query { cursor = c } in
            list_lem actor group_id expense_id query' w m e em ee)
          (pages expense_id query dir w d k)
