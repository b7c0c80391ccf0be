-- ===== src/Pagination/Pages.antt =====
-- apps/server/src/lib/pagination.ts, and the query of the lists. The database keeps microseconds,
-- of which a `Date`, and so a cursor, has the milliseconds. The text of a cursor is left out.
use postbag.Common.{
  ℕ, zero, suc, ◌+◌, ◌*◌, ◌/◌, Bool, true, ◌&&◌, ◌||◌, Option, none, some, List, [], ◌∷◌, ◌++◌,
  ◌==◌, ltb, if◌then◌else◌, min, length, take, keep,
}
use postbag.Routing.Types.{Key}

-- Identifiers are compared by their order.
pub record Row : Type 0 where
  pub created_at : ℕ
  pub id : Key

pub record Cursor : Type 0 where
  pub created_at : ℕ
  pub id : Key

-- What `encodeCursor` keeps of a row.
abbrev pub cursor_of : Row → Cursor
cursor_of r = record { created_at = r.created_at / 1000; id = r.id }

unfoldable pub parse_limit : Option ℕ → ℕ
parse_limit none = 50
parse_limit (some raw) = if ltb raw 1 then 50 else min raw 200

-- The condition of a cursor.
abbrev pub beyond : Cursor → Row → Bool
beyond c r =
    ltb r.created_at (c.created_at * 1000)
    || ((r.created_at == c.created_at * 1000) && ltb r.id c.id)

abbrev pub in_range : Option Cursor → Row → Bool
in_range none r = true
in_range (some c) r = beyond c r

pub record Page : Type 0 where
  pub rows : List Row
  pub next_cursor : Option Cursor

-- `data.at(-1)`
abbrev pub at_last : List Row → Option Row
at_last [] = none
at_last (r ∷ []) = some r
at_last (r ∷ s ∷ rows) = at_last (s ∷ rows)

abbrev pub cursor_after : Option Row → Option Cursor
cursor_after none = none
cursor_after (some r) = some (cursor_of r)

unfoldable pub page : List Row → ℕ → Page
page fetched limit =
    if ltb limit (length fetched)
    then record {
      rows = take limit fetched;
      next_cursor = cursor_after (at_last (take limit fetched));
    }
    else record { rows = fetched; next_cursor = none }

-- One request of a list, whose rows are in the order of the query.
unfoldable pub list_page : List Row → ℕ → Option Cursor → Page
list_page rows limit cursor = page (take (limit + 1) (keep (in_range cursor) rows)) limit

abbrev pub joined : List Row → Option Cursor → (Cursor → List Row) → List Row
joined rows none more = rows
joined rows (some c) more = rows ++ more c

-- What a client sees that follows the cursors, for at most `fuel` requests.
unfoldable pub collect : List Row → ℕ → ℕ → Option Cursor → List Row
collect rows limit zero cursor = []
collect rows limit (suc fuel) cursor =
    let p = list_page rows limit cursor in
    joined p.rows p.next_cursor (λ c. collect rows limit fuel (some c))
