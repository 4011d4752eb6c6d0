-- ===== src/Expenses/Comments.antt =====
-- src/modules/expenses/expense-comments.service.ts: the comments of an expense, and replies to them.
-- A comment is returned as its row, before `mapRow` renders it.
pub mod Walk
pub mod Threads
mod Tests
use qisma_be.Prelude.{
  ℕ, suc, Bool, true, false, not, ◌&&◌, Option, none, some, List, [], ◌∷◌, ◌++◌, ◌==◌,
  if◌then◌else◌, find?,
}
use qisma_be.Prelude.Result.{Result, ok, err}
use qisma_be.Prelude.Handler.{◌>>=◌, ◌>>◌, pure, throw, gets, modify, or_throw, or_err, throw_if}
use qisma_be.Expenses.Paging.{Key, Direction, asc, desc, beyond, clamp, Page, find_many, page_of}
use qisma_be.Expenses.Cursor.{CursorLib, CursorError, desc_word, decode_comment, encode_comment}
use qisma_be.Expenses.Store.{
  Expense, Comment, expense_comment_created, World, ExpenseError, cursor, expense_not_found,
  parent_not_found, nested_too_deep, Action, active_member, log, is_live, find_live,
}
use qisma_be.Expenses.Feed.{given}

abbrev pub comment_key : Comment → Key
comment_key c = (c.created_at, c.id)

-- `parentFilter`
abbrev pub same_parent : Option ℕ → Option ℕ → Bool
same_parent none none = true
same_parent (some a) (some b) = a == b
same_parent _ _ = false

-- The comments of a list: those of an expense that are not deleted, of one parent or of none.
abbrev pub in_thread : ℕ → Option ℕ → Comment → Bool
in_thread expense_id parent c =
    c.expense_id == expense_id && is_live c.deleted_at && same_parent c.parent_comment_id parent

module _ {T : Type 0} where
  -- `assertExpenseInGroup`
  unfoldable pub assert_expense_in_group : ℕ → ℕ → Action T (Expense T)
  assert_expense_in_group expense_id group_id = do
    e ← gets (find_live expense_id group_id)
    or_throw e expense_not_found

  -- What a reply has to be a reply to.
  unfoldable pub check_parent : ℕ → Option ℕ → Action T (Unit {0})
  check_parent expense_id none = pure tt
  check_parent expense_id (some id) = do
    found ← gets λ w.
        find? (λ c. c.id == id && (c.expense_id == expense_id && is_live c.deleted_at)) w.comments
    parent ← or_throw found parent_not_found
    throw_if (not (is_live parent.parent_comment_id)) nested_too_deep

  -- `createComment`; `fresh` is the id that the database draws and `now` its time.
  unfoldable pub create_comment : ℕ → ℕ → ℕ → ℕ → ℕ → ℕ → Option ℕ → Action T Comment
  unfolding assert_expense_in_group check_parent
  create_comment now fresh actor group_id expense_id message parent = do
    active_member actor group_id
    e ← assert_expense_in_group expense_id group_id
    check_parent expense_id parent
    let c : Comment = record {
      id = fresh;
      expense_id = expense_id;
      user_id = actor;
      message = message;
      parent_comment_id = parent;
      created_at = now;
      deleted_at = none;
    }
    modify λ w. record w { comments = w.comments ++ (c ∷ []) }
    log (record {
      group_id = e.group_id;
      type = expense_comment_created;
      actor_id = actor;
      entity_id = expense_id;
    })
    pure c

-- `ListExpenseCommentsQueryDto`
pub record CommentQuery (X : Type 0) : Type 0 where
  pub cursor : Option X
  pub limit : Option ℕ
  pub parent_comment_id : Option ℕ
  pub sort : Option X

module _ (lib : CursorLib) where
  open lib use {Text, same, literal, trim, lower}

  -- `normalizeExpenseCommentListSort`
  unfoldable pub normalize_sort : Option Text → Direction
  normalize_sort none = asc
  normalize_sort (some raw) = if same (lower (trim raw)) (literal desc_word) then desc else asc

  abbrev pub as_key : Result CursorError Key → Result ExpenseError (Option Key)
  as_key (ok c) = ok (some c)
  as_key (err e) = err (cursor e)

  unfoldable pub read_key : Option Text → Option ℕ → Direction → Result ExpenseError (Option Key)
  read_key none parent dir = ok none
  read_key (some t) parent dir = as_key (decode_comment lib (some t) parent dir)

  abbrev pub after_key : Direction → Option Key → Comment → Bool
  after_key dir none c = true
  after_key dir (some k) c = beyond dir k (comment_key c)

  -- `listComments`, from its cursor on, and as a whole.
  unfoldable pub comments_page :
      {T : Type 0} → ℕ → CommentQuery Text → Direction → Action T (Page Comment Text)
  comments_page expense_id query dir = do
    k ← or_err (λ e. e) (read_key (given lib query.cursor) query.parent_comment_id dir)
    rows ← gets λ w.
        find_many dir comment_key
          (λ c. in_thread expense_id query.parent_comment_id c && after_key dir k c)
          (suc (clamp query.limit)) w.comments
    pure (
        page_of (λ c. encode_comment lib c.created_at c.id query.parent_comment_id dir)
          (clamp query.limit) rows)

  unfoldable pub list_comments :
      {T : Type 0} → ℕ → ℕ → ℕ → CommentQuery Text → Action T (Page Comment Text)
  unfolding assert_expense_in_group comments_page
  list_comments actor group_id expense_id query = do
    active_member actor group_id
    assert_expense_in_group expense_id group_id
    comments_page expense_id query (normalize_sort query.sort)
