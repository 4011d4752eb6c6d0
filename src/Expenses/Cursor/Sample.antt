-- ===== src/Expenses/Cursor/Sample.antt =====
-- A model of `CursorLib` that meets the laws: a text is how it was made.
use qisma_be.Prelude.{
  ℕ, ◌*◌, ◌/◌, ◌≡◌, refl, Bool, true, false, Option, none, some, List, [], ◌∷◌, ◌==◌,
}
use qisma_be.Expenses.Cursor.{
  Field, Value, str, num, null, other, Json, object, Word, word, CursorLib, IsCursorLib,
}

-- A text that is a number, a word, an id or a date; and what is put together to a payload.
pub data Sample : Type 0 where
  blank : Sample
  literal : Word → Sample
  id iso day_text : ℕ → Sample
  payload : Sample → Sample
  field_end : Sample
  field_more : Field → Sample → Sample → Sample
  value_str : Sample → Sample
  value_num : ℕ → Sample
  value_null : Sample

abbrev same : Sample → Sample → Bool
same (literal a) (literal b) = word a == word b
same (id a) (id b) = a == b
same _ _ = false

abbrev from_value : Value Sample → Sample
from_value (str t) = value_str t
from_value (num n) = value_num n
from_value null = value_null
from_value other = blank

abbrev to_value : Sample → Value Sample
to_value (value_str t) = str t
to_value (value_num n) = num n
to_value value_null = null
to_value _ = other

abbrev from_fields : List (Field × Value Sample) → Sample
from_fields [] = field_end
from_fields ((f, v) ∷ fs) = field_more f (from_value v) (from_fields fs)

abbrev to_fields : Sample → List (Field × Value Sample)
to_fields (field_more f v t) = (f, to_value v) ∷ to_fields t
to_fields _ = []

abbrev decode : Sample → Option (Json Sample)
decode (payload t) = some (object (to_fields t))
decode _ = none

abbrev id_of : Sample → ℕ
id_of (id n) = n
id_of _ = 0

abbrev day : Sample → Sample
day (iso t) = day_text (t / 86_400_000)
day t = t

abbrev date : Sample → Option ℕ
date (iso t) = some t
date _ = none

abbrev midnight : Sample → Option ℕ
midnight (day_text n) = some (n * 86_400_000)
midnight _ = none

abbrev is_empty : Sample → Bool
is_empty blank = true
is_empty _ = false

abbrev pub sample : CursorLib
sample = record {
  Text = Sample;
  is_empty = is_empty;
  same = same;
  literal = literal;
  trim = λ t. t;
  lower = λ t. t;
  id_text = id;
  id_of = id_of;
  to_iso = iso;
  day = day;
  date = date;
  midnight = midnight;
  encode = λ fs. payload (from_fields fs);
  decode_url = decode;
  decode_base = λ t. none;
}

to_value-from_value : (v : Value Sample) → to_value (from_value v) ≡ v
to_value-from_value (str t) = refl
to_value-from_value (num n) = refl
to_value-from_value null = refl
to_value-from_value other = refl

to_fields-from_fields : (fs : List (Field × Value Sample)) → to_fields (from_fields fs) ≡ fs
to_fields-from_fields [] = refl
to_fields-from_fields ((f, v) ∷ fs) = rw (to_value-from_value v, to_fields-from_fields fs) refl

pub sample-IsCursorLib : IsCursorLib sample
sample-IsCursorLib = record {
  decode_url-encode = λ fs d. rw (to_fields-from_fields fs) refl;
  is_empty-encode = λ fs. refl;
  date-to_iso = λ t h. refl;
  midnight-day = λ t h. refl;
  id_of-id_text = λ i. refl;
  same-id_text = λ a b. refl;
  same-literal = λ a b. refl;
}
