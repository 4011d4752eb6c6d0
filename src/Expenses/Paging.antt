-- ===== src/Expenses/Paging.antt =====
-- What the lists of expenses.service.ts (`executeExpenseFeedQuery`) and expense-comments.service.ts
-- (`listComments`) in src/modules/expenses share: pages of rows in the order of a time and an id, each
-- but the first with a cursor, the time and id of the last row before it.
pub mod Order
pub mod Walk
use qisma_be.Prelude.{
  ℕ, suc, Bool, true, false, not, ◌&&◌, ◌||◌, Option, none, some, List, [], ◌∷◌, ltb, ◌==◌,
  if◌then◌else◌, length, keep, take,
}
use qisma_be.Prelude.Sort.{sort}

-- A time in milliseconds, and an id.
abbrev pub Key : Type 0
Key = ℕ × ℕ

pub data Direction : Type 0 where
  asc desc : Direction

-- The condition of a cursor: `{ t: { lt: c.t } }`, or the same time and `{ id: { lt: c.id } }`; with
-- `gt` for the ascending order.
abbrev pub beyond : Direction → Key → Key → Bool
beyond asc c k = ltb c.0 k.0 || k.0 == c.0 && ltb c.1 k.1
beyond desc c k = ltb k.0 c.0 || k.0 == c.0 && ltb k.1 c.1

-- `query.limit ?? 20`, from 1 to 100.
abbrev pub clamp : Option ℕ → ℕ
clamp none = 20
clamp (some n) = if ltb n 1 then 1 else (if ltb 100 n then 100 else n)

pub record Page (A T : Type 0) : Type 0 where
  pub items : List A
  pub next_cursor : Option T

module _ {A : Type 0} where
  -- `page[page.length - 1]`
  abbrev pub last : List A → Option A
  last [] = none
  last (x ∷ xs) = elim (last xs) [ none ↦ some x | some y ↦ some y ]

  module _ (dir : Direction) (key : A → Key) where
    -- `orderBy`: by the time, then by the id.
    abbrev pub row_le : A → A → Bool
    row_le x y = not (beyond dir (key y) (key x))

    abbrev pub after_cursor : Option Key → A → Bool
    after_cursor none x = true
    after_cursor (some c) x = beyond dir c (key x)

    -- `findMany({ where, orderBy, take })`
    abbrev pub find_many : (A → Bool) → ℕ → List A → List A
    find_many p n rows = take n (sort row_le (keep p rows))

  -- From the rows that were fetched to the page: one more than the limit says that there is more.
  unfoldable pub page_of : {T : Type 0} → (A → T) → ℕ → List A → Page A T
  page_of encode limit rows = record {
    items = take limit rows;
    next_cursor =
        if ltb limit (length rows)
        then elim (last (take limit rows)) [ none ↦ none | some x ↦ some (encode x) ]
        else none;
  }
