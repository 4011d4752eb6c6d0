-- ===== src/Expenses/Cursor/Round.antt =====
-- A cursor that was encoded is read back, and is refused for another list.
use qisma_be.Prelude.{
  ℕ, ◌≤◌, ◌<◌, ◌≡◌, ◌≢◌, ◌*◌, ◌/◌, refl, true, false, Option, none, some, ap, dec_eq, inl, inr,
  arith, List,
}
use qisma_be.Prelude.Result.{ok, err}
use qisma_be.Expenses.Paging.{Direction, asc, desc}
use qisma_be.Expenses.Cursor.{
  FeedSort, created_at, expense_date, Field, Value, CursorLib, IsCursorLib, distinct, encode_feed,
  decode_feed, encode_comment, decode_comment, parsed, sort_mismatch, scope_mismatch,
  direction_mismatch, created_at_word, expense_date_word, asc_word, desc_word, str, direction_of,
  direction_word, check_scope, parent_scope, same_direction,
}

module _ (lib : CursorLib) (laws : IsCursorLib lib) where
  open lib use {Text, encode, is_empty, decode_url, day, to_iso, midnight, same, literal}
  open laws use {
    decode_url-encode, is_empty-encode, date-to_iso, midnight-day, id_of-id_text, same-id_text,
    same-literal,
  }

  parsed-encode :
      (fs : List (Field × Value Text)) → distinct fs ≡ true → parsed lib (some (encode fs)) ≡ ok fs
  parsed-encode fs d = rw (is_empty-encode fs, decode_url-encode fs d) refl

  decode-encode_created :
      (t id : ℕ)
      → t ≤ 8_640_000_000_000_000
      → decode_feed lib (some (encode_feed lib created_at t id)) created_at
        ≡ ok (record { sort = created_at; at = t; id = id })
  unfolding decode_feed encode_feed
  decode-encode_created t id h =
      rw
        (
          parsed-encode _ refl,
          same-literal created_at_word expense_date_word,
          same-literal created_at_word created_at_word,
          date-to_iso t h,
          id_of-id_text id,
        )
        refl

  decode-encode_date :
      (t id : ℕ)
      → t < 253_402_300_800_000
      → decode_feed lib (some (encode_feed lib expense_date t id)) expense_date
        ≡ ok (record { sort = expense_date; at = t / 86_400_000 * 86_400_000; id = id })
  unfolding decode_feed encode_feed
  decode-encode_date t id h =
      rw
        (
          parsed-encode _ refl,
          same-literal expense_date_word expense_date_word,
          midnight-day t h,
          id_of-id_text id,
        )
        refl

  -- What a cursor of the feed stands for: a time, or by the date of the expense its day.
  abbrev pub cursor_time : FeedSort → ℕ → ℕ
  cursor_time created_at t = t
  cursor_time expense_date t = t / 86_400_000 * 86_400_000

  -- A cursor of the feed that was made for a time before the year 10000 reads back as its order, its
  -- time (its day, for a feed by the date of the expense) and its id; a feed in the other order
  -- refuses it.
  pub feed_cursor_round :
      (own asked : FeedSort) (t id : ℕ)
      → t < 253_402_300_800_000
      → (decode_feed lib (some (encode_feed lib own t id)) own
          ≡ ok (record { sort = own; at = cursor_time own t; id = id }))
        × (own ≢ asked
            → decode_feed lib (some (encode_feed lib own t id)) asked ≡ err sort_mismatch)
  unfolding decode_feed encode_feed
  feed_cursor_round created_at created_at t id h =
      (decode-encode_created t id (omega (arith, h)), λ n. absurd (n refl))
  feed_cursor_round created_at expense_date t id h = (
    decode-encode_created t id (omega (arith, h)),
    λ n.
        rw
          (
            parsed-encode _ refl,
            same-literal created_at_word expense_date_word,
            same-literal created_at_word created_at_word,
          )
          refl,
  )
  feed_cursor_round expense_date created_at t id h = (
    decode-encode_date t id h,
    λ n. rw (parsed-encode _ refl, same-literal expense_date_word expense_date_word) refl,
  )
  feed_cursor_round expense_date expense_date t id h =
      (decode-encode_date t id h, λ n. absurd (n refl))

  direction_back :
      (dir : Direction) → direction_of lib (some (str (literal (direction_word lib dir)))) ≡ ok dir
  direction_back asc = rw (same-literal asc_word desc_word, same-literal asc_word asc_word) refl
  direction_back desc = rw (same-literal desc_word desc_word) refl

  same_direction_refl : (d : Direction) → same_direction lib d d ≡ true
  same_direction_refl asc = refl
  same_direction_refl desc = refl

  same_direction_not : (d e : Direction) → d ≢ e → same_direction lib d e ≡ false
  same_direction_not asc asc n = absurd (n refl)
  same_direction_not asc desc n = refl
  same_direction_not desc asc n = refl
  same_direction_not desc desc n = absurd (n refl)

  scope_back : (parent : Option ℕ) → check_scope lib (some (parent_scope lib parent)) parent ≡ ok tt
  scope_back none = refl
  scope_back (some id) = ground (arith, same-id_text id id)

  scope_wrong :
      (parent asked : Option ℕ)
      → parent ≢ asked
      → check_scope lib (some (parent_scope lib parent)) asked ≡ err scope_mismatch
  scope_wrong none none n = absurd (n refl)
  scope_wrong none (some b) n = refl
  scope_wrong (some a) none n = refl
  scope_wrong (some a) (some b) n = elim (dec_eq a b) [
    | inl e ↦ absurd (n (ap some e))
    | inr ne ↦ ground (arith, same-id_text a b, ne)
  ]

  -- A cursor of the comments reads back as its time and id in a list of the same parent and the same
  -- direction; a list of another parent refuses it, and so does one of the other direction.
  pub comment_cursor_round :
      (t id : ℕ) (parent asked : Option ℕ) (dir other : Direction)
      → t ≤ 8_640_000_000_000_000
      → let cursor = some (encode_comment lib t id parent dir) in
        (decode_comment lib cursor parent dir ≡ ok (t, id))
        × (parent ≢ asked → decode_comment lib cursor asked other ≡ err scope_mismatch)
        × (dir ≢ other → decode_comment lib cursor parent other ≡ err direction_mismatch)
  unfolding decode_comment encode_comment
  comment_cursor_round t id parent asked dir other h = (
    rw
        (
          parsed-encode _ refl,
          date-to_iso t h,
          scope_back parent,
          direction_back dir,
          same_direction_refl dir,
          id_of-id_text id,
        )
        refl,
    λ n. rw (parsed-encode _ refl, date-to_iso t h, scope_wrong parent asked n) refl,
    λ n.
        rw
          (
            parsed-encode _ refl,
            date-to_iso t h,
            scope_back parent,
            direction_back dir,
            same_direction_not dir other n,
          )
          refl,
  )
