-- ===== src/Expenses/Cursor.antt =====
-- src/modules/expenses/utils/expense-cursor.ts and expense-comment-cursor.ts: the cursors of the
-- lists. What they take from the language, texts, dates, JSON and base64, is the parameter
-- `CursorLib`; ids, texts in the source, are numbers.
pub mod Sample
pub mod Round
mod Tests
use qisma_be.Prelude.{
  ℕ, ◌≤◌, ◌<◌, ◌≡◌, ◌*◌, ◌/◌, Bool, true, false, not, ◌&&◌, ◌||◌, Option, none, some, List, [], ◌∷◌,
  ◌==◌, if◌then◌else◌,
}
use qisma_be.Prelude.Result.{Result, ok, err, ◌>>=◌, ◌>>◌, throw_if}
use qisma_be.Expenses.Paging.{Key, Direction, asc, desc}

-- The fields of a payload.
pub data Field : Type 0 where
  field_v field_sort field_c field_d field_i field_p field_s : Field

abbrev pub index : Field → ℕ
index field_v = 0
index field_sort = 1
index field_c = 2
index field_d = 3
index field_i = 4
index field_p = 5
index field_s = 6

-- The value of a field of an object, as far as the code looks at it.
pub data Value (T : Type 0) : Type 0 where
  str : T → Value T
  num : ℕ → Value T
  null other : Value T

-- What `JSON.parse` returns.
pub data Json (T : Type 0) : Type 0 where
  object : List (Field × Value T) → Json T
  not_object : Json T

-- `EXPENSE_FEED_SORT`
pub data FeedSort : Type 0 where
  created_at expense_date : FeedSort

-- The texts that the code names.
pub data Word : Type 0 where
  created_at_word expense_date_word asc_word desc_word : Word

abbrev pub word : Word → ℕ
word created_at_word = 0
word expense_date_word = 1
word asc_word = 2
word desc_word = 3

-- No field stands twice.
abbrev pub absent : {T : Type 0} → Field → List (Field × Value T) → Bool
absent f [] = true
absent f ((g, v) ∷ fs) = not (index f == index g) && absent f fs

abbrev pub distinct : {T : Type 0} → List (Field × Value T) → Bool
distinct [] = true
distinct ((f, v) ∷ fs) = absent f fs && distinct fs

pub record CursorLib : Type 1 where
  pub Text : Type 0
  pub is_empty : Text → Bool
  -- `===`
  pub same : Text → Text → Bool
  pub literal : Word → Text
  -- `s.trim()` and `s.toLowerCase()`
  pub trim : Text → Text
  pub lower : Text → Text
  -- The text of an id, and the id of a text.
  pub id_text : ℕ → Text
  pub id_of : Text → ℕ
  -- `d.toISOString()`, with a date as its milliseconds.
  pub to_iso : ℕ → Text
  -- `s.slice(0, 10)`
  pub day : Text → Text
  -- `new Date(s)`, and with the time `T00:00:00.000Z` put after `s`; `none` is an invalid date.
  pub date : Text → Option ℕ
  pub midnight : Text → Option ℕ
  -- `Buffer.from(JSON.stringify(payload), 'utf8').toString('base64url')`
  pub encode : List (Field × Value Text) → Text
  -- `JSON.parse` of the text read as base64url, and as base64; `none` is the error that it throws.
  pub decode_url : Text → Option (Json Text)
  pub decode_base : Text → Option (Json Text)

abbrev first : {A : Type 0} → Option A → Option A → Option A
first (some a) b = some a
first none b = b

-- The ways in which a cursor is refused, each an `ExpenseInvalidCursorException`.
pub data CursorError : Type 0 where
  invalid_cursor sort_mismatch scope_mismatch direction_mismatch : CursorError

module _ (lib : CursorLib) where
  open lib use {
    Text, is_empty, same, literal, id_text, id_of, to_iso, day, date, midnight, encode, decode_url,
    decode_base,
  }

  -- The documented behaviour that the results rest on. A date is at most 8.64e15; the year in the
  -- text of an earlier date than that of the year 10000 has four digits.
  pub record IsCursorLib : Type 0 where
    pub decode_url-encode :
        (fs : List (Field × Value Text))
        → distinct fs ≡ true
        → decode_url (encode fs) ≡ some (object fs)
    pub is_empty-encode : (fs : List (Field × Value Text)) → is_empty (encode fs) ≡ false
    pub date-to_iso : (t : ℕ) → t ≤ 8_640_000_000_000_000 → date (to_iso t) ≡ some t
    pub midnight-day :
        (t : ℕ)
        → t < 253_402_300_800_000
        → midnight (day (to_iso t)) ≡ some (t / 86_400_000 * 86_400_000)
    pub id_of-id_text : (id : ℕ) → id_of (id_text id) ≡ id
    pub same-id_text : (a b : ℕ) → same (id_text a) (id_text b) ≡ (a == b)
    pub same-literal : (a b : Word) → same (literal a) (literal b) ≡ (word a == word b)

  -- `o[name]`
  abbrev pub field : Field → List (Field × Value Text) → Option (Value Text)
  field f [] = none
  field f ((g, v) ∷ fs) = if index g == index f then some v else field f fs

  -- A value that has to be a text.
  abbrev pub text_of : Option (Value Text) → Result CursorError Text
  text_of (some (str t)) = ok t
  text_of _ = err invalid_cursor

  abbrev pub date_of : Option ℕ → Result CursorError ℕ
  date_of (some t) = ok t
  date_of none = err invalid_cursor

  abbrev pub says : Option (Value Text) → Word → Bool
  says (some (str t)) w = same t (literal w)
  says _ w = false

  abbrev pub is_one : Option (Value Text) → Bool
  is_one (some (num n)) = n == 1
  is_one _ = false

  abbrev object_of : Option (Json Text) → Result CursorError (List (Field × Value Text))
  object_of (some (object fs)) = ok fs
  object_of _ = err invalid_cursor

  -- `JSON.parse(buf.toString('utf8'))`, by base64url or else by base64, which has to be an object.
  abbrev pub parsed : Option Text → Result CursorError (List (Field × Value Text))
  parsed none = err invalid_cursor
  parsed (some raw) =
      if is_empty raw
      then err invalid_cursor
      else object_of (first (decode_url raw) (decode_base raw))

  -- What `decodeExpenseFeedCursor` returns.
  pub record FeedCursor : Type 0 where
    pub sort : FeedSort
    pub at : ℕ
    pub id : ℕ

  -- `encodeExpenseFeedCursor`
  unfoldable pub encode_feed : FeedSort → ℕ → ℕ → Text
  encode_feed expense_date t id = encode (
      (field_v, num 1)
      ∷ (field_sort, str (literal expense_date_word))
      ∷ (field_d, str (day (to_iso t)))
      ∷ (field_i, str (id_text id))
      ∷ [])
  encode_feed created_at t id = encode (
      (field_v, num 1)
      ∷ (field_sort, str (literal created_at_word))
      ∷ (field_c, str (to_iso t))
      ∷ (field_i, str (id_text id))
      ∷ [])

  abbrev by_date : FeedSort → Bool
  by_date expense_date = true
  by_date created_at = false

  -- A cursor by the date of the expense, and one by the time of its creation.
  abbrev from_date : List (Field × Value Text) → Text → FeedSort → Result CursorError FeedCursor
  from_date o i expected = do
    throw_if (not (by_date expected)) sort_mismatch
    ds ← text_of (field field_d o)
    t ← date_of (midnight ds)
    ok (record { sort = expense_date; at = t; id = id_of i })

  abbrev from_created : List (Field × Value Text) → Text → FeedSort → Result CursorError FeedCursor
  from_created o i expected = do
    throw_if (by_date expected) sort_mismatch
    cs ← text_of (field field_c o)
    t ← date_of (date cs)
    ok (record { sort = created_at; at = t; id = id_of i })

  -- `decodeExpenseFeedCursor`
  unfoldable pub decode_feed : Option Text → FeedSort → Result CursorError FeedCursor
  decode_feed raw expected = do
    o ← parsed raw
    throw_if (not (is_one (field field_v o))) invalid_cursor
    i ← text_of (field field_i o)
    if says (field field_sort o) expense_date_word
        then from_date o i expected
        else (if says (field field_sort o) created_at_word
            then from_created o i expected
            else err invalid_cursor)

  -- `normalizeParentScope`, as a value of the payload.
  abbrev pub parent_scope : Option ℕ → Value Text
  parent_scope none = null
  parent_scope (some id) = str (id_text id)

  abbrev pub direction_word : Direction → Word
  direction_word asc = asc_word
  direction_word desc = desc_word

  -- `encodeExpenseCommentCursor`
  unfoldable pub encode_comment : ℕ → ℕ → Option ℕ → Direction → Text
  encode_comment t id parent dir = encode (
      (field_v, num 1)
      ∷ (field_c, str (to_iso t))
      ∷ (field_i, str (id_text id))
      ∷ (field_p, parent_scope parent)
      ∷ (field_s, str (literal (direction_word dir)))
      ∷ [])

  -- Whether the scope of a cursor is that of the query; a scope is a text, `null` or not there.
  abbrev pub check_scope : Option (Value Text) → Option ℕ → Result CursorError (Unit {0})
  check_scope (some (str t)) (some id) = throw_if (not (same t (id_text id))) scope_mismatch
  check_scope (some (str t)) none = err scope_mismatch
  check_scope (some (num n)) parent = err invalid_cursor
  check_scope (some other) parent = err invalid_cursor
  check_scope _ none = ok tt
  check_scope _ (some id) = err scope_mismatch

  -- The direction of a cursor; none is `asc`.
  abbrev pub direction_of : Option (Value Text) → Result CursorError Direction
  direction_of none = ok asc
  direction_of (some null) = ok asc
  direction_of v =
      if says v desc_word then ok desc else (if says v asc_word then ok asc else err invalid_cursor)

  abbrev pub same_direction : Direction → Direction → Bool
  same_direction asc asc = true
  same_direction desc desc = true
  same_direction _ _ = false

  -- `decodeExpenseCommentCursor`
  unfoldable pub decode_comment : Option Text → Option ℕ → Direction → Result CursorError Key
  decode_comment raw parent dir = do
    o ← parsed raw
    throw_if (not (is_one (field field_v o))) invalid_cursor
    i ← text_of (field field_i o)
    cs ← text_of (field field_c o)
    t ← date_of (date cs)
    check_scope (field field_p o) parent
    own ← direction_of (field field_s o)
    throw_if (not (same_direction own dir)) direction_mismatch
    ok (t, id_of i)
