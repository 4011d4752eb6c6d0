-- ===== src/Expenses/Comments/Tests.antt =====
-- Comments on inputs: a comment and a reply to it.
use qisma_be.Prelude.{ℕ, ◌≡◌, refl, none, some, [], ◌∷◌, ◌++◌, arith, Option}
use qisma_be.Prelude.Result.{ok, err}
use qisma_be.Groups.Store.{owner, Status}
use qisma_be.Groups.Rules.{require_active_member}
use qisma_be.Expenses.Paging.{asc}
use qisma_be.Expenses.Paging.Order.{listed}
use qisma_be.Expenses.Paging.Walk.{Walk}
use qisma_be.Expenses.Cursor.Sample.{Sample, sample, sample-IsCursorLib}
use qisma_be.Expenses.Store.{Comment, World, ExpenseError}
use qisma_be.Expenses.Tests.{one_group, spent}
use qisma_be.Expenses.Comments.{
  CommentQuery, comment_key, in_thread, create_comment, list_comments, normalize_sort,
}
use qisma_be.Expenses.Comments.Walk.{comments-Walk}
use qisma_be.Expenses.Comments.Threads.{Threaded, IsAnswer, create_comment-Threaded}

abbrev said : ℕ → ℕ → Option ℕ → Comment
said id at parent = record {
  id = id;
  expense_id = 10;
  user_id = 1;
  message = 0;
  parent_comment_id = parent;
  created_at = at;
  deleted_at = none;
}

abbrev world : World ℕ
world = record {
  groups = one_group;
  expenses = spent 10 500 ∷ [];
  participants = [];
  payers = [];
  categories = [];
  subcategories = [];
  comments = said 20 600 none ∷ said 21 650 (some 20) ∷ said 22 700 none ∷ [];
  reactions = [];
  logs = [];
  cache = [];
}

abbrev query : CommentQuery Sample
query = record { cursor = none; limit = some 1; parent_comment_id = none; sort = none }

comments-Walk_example :
    Walk
      (λ c. (list_comments sample 1 7 10 (record query { cursor = c }) world).0)
      none
      (listed asc comment_key (in_thread 10 none) world.comments)
unfolding require_active_member normalize_sort
comments-Walk_example =
    comments-Walk sample sample-IsCursorLib 1 7 10 query world
      (record {
        group_id = 7;
        user_id = 1;
        role = owner;
        status = Status.active;
        added_by = none;
        joined_at = some 5;
        created_at = 5;
      })
      (spent 10 500) refl refl ((omega arith, (omega arith, tt)), ((omega arith, tt), (tt, tt)))
      (omega arith, (omega arith, (omega arith, tt)))

create_comment-Threaded_example :
    ((r : Comment)
      → (create_comment 800 23 1 7 10 5 (some 22) world).0 ≡ ok r
      → ((create_comment 800 23 1 7 10 5 (some 22) world).1.comments ≡ world.comments ++ (r ∷ []))
        × (r ≡ record (said 23 800 (some 22)) { message = 5 })
        × IsAnswer world.comments 10 (some 22))
    × ((e : ExpenseError)
        → (create_comment 800 23 1 7 10 5 (some 22) world).0 ≡ err e
        → (create_comment 800 23 1 7 10 5 (some 22) world).1.comments ≡ world.comments)
    × (Threaded world.comments
        → Threaded (create_comment 800 23 1 7 10 5 (some 22) world).1.comments)
create_comment-Threaded_example = create_comment-Threaded 800 23 1 7 10 5 (some 22) world

reply_to_reply :
    (create_comment 800 23 1 7 10 5 (some 21) world).0 ≡ err ExpenseError.nested_too_deep
unfolding create_comment require_active_member
reply_to_reply = refl
