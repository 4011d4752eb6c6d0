-- ===== src/Expenses/Cursor/Tests.antt =====
-- Cursors on inputs, over the texts of `Sample`.
use qisma_be.Prelude.{ℕ, Option, ◌≡◌, ◌≢◌, none, some, arith}
use qisma_be.Prelude.Result.{ok, err}
use qisma_be.Expenses.Paging.{asc, desc}
use qisma_be.Expenses.Cursor.{
  created_at, expense_date, encode_feed, decode_feed, encode_comment, decode_comment, sort_mismatch,
  scope_mismatch, direction_mismatch,
}
use qisma_be.Expenses.Cursor.Sample.{sample, sample-IsCursorLib}
use qisma_be.Expenses.Cursor.Round.{feed_cursor_round, comment_cursor_round}

-- 2024-01-01T00:00:01.500Z, by its day.
feed_cursor_round_example :
    (decode_feed sample (some (encode_feed sample expense_date 1_704_067_201_500 8)) expense_date
      ≡ ok (record { sort = expense_date; at = 1_704_067_200_000; id = 8 }))
    × (expense_date ≢ created_at
        → decode_feed sample (some (encode_feed sample expense_date 1_704_067_201_500 8)) created_at
          ≡ err sort_mismatch)
feed_cursor_round_example =
    feed_cursor_round sample sample-IsCursorLib expense_date created_at 1_704_067_201_500 8
      (omega arith)

comment_cursor_round_example :
    let cursor = some (encode_comment sample 1_704_067_201_500 8 (some 3) desc) in
    (decode_comment sample cursor (some 3) desc ≡ ok (1_704_067_201_500, 8))
    × (◌≢◌ {A = Option ℕ} (some 3) none
        → decode_comment sample cursor none asc ≡ err scope_mismatch)
    × (desc ≢ asc → decode_comment sample cursor (some 3) asc ≡ err direction_mismatch)
comment_cursor_round_example =
    comment_cursor_round sample sample-IsCursorLib 1_704_067_201_500 8 (some 3) none desc asc
      (omega arith)
