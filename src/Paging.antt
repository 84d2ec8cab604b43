-- ===== src/Paging.antt =====
-- Keyset pagination, as `list_incidents`, `list_events`, `list_comments` and `list_entries` do it:
-- `WHERE ... AND past the cursor ORDER BY ... LIMIT limit + 1`, and the cut after `limit` rows. The
-- cursor is the pair or number that its text encodes (pagination.py).
pub mod Sorted
pub mod Walk
pub mod Spec
pub mod Client
pub mod Keys
use incident_desk.Prelude.{
  ℕ, zero, suc, ◌+◌, ltb, ◌≡◌, Bool, true, false, ◌&&◌, Option, none, some, List, [], ◌∷◌, ◌++◌,
  take, length, last_or, select_where, if◌then◌else◌,
}

-- An order of rows with its cursors: `past c y` if `y` stands after the row that gave the cursor `c`.
pub record Keyset (A C : Type 0) : Type 0 where
  pub past : C → A → Bool
  pub cursor_of : A → C
  pub past_irrefl : (x : A) → past (cursor_of x) x ≡ false
  pub past_trans :
      (x y z : A)
      → past (cursor_of x) y ≡ true
      → past (cursor_of y) z ≡ true
      → past (cursor_of x) z ≡ true

-- what a client does with the cursor of an answer
module _ {A C : Type 0} where
  abbrev pub follow : Option C → (Option C → List A) → List A
  follow none rest = []
  follow (some c) rest = rest (some c)

module _ {A C : Type 0} (k : Keyset A C) where
  -- `x` is listed before `y`
  abbrev pub before : A → A → Bool
  before x y = k.past (k.cursor_of x) y

  -- `ORDER BY`
  abbrev pub insert_row : A → List A → List A
  insert_row x [] = x ∷ []
  insert_row x (y ∷ ys) = let rest = insert_row x ys in if before x y then x ∷ y ∷ ys else y ∷ rest

  abbrev pub order_rows : List A → List A
  order_rows [] = []
  order_rows (x ∷ xs) = insert_row x (order_rows xs)

  -- `if cursor is not None: query = query.where(...)`
  abbrev pub beyond : Option C → A → Bool
  beyond none x = true
  beyond (some c) x = k.past c x

  -- the cursor of `rows[-1]`
  abbrev pub last_cursor : List A → Option C
  last_cursor [] = none
  last_cursor (x ∷ xs) = some (k.cursor_of (last_or x xs))

  -- `if len(rows) > limit: ...`
  abbrev pub cut_page : ℕ → List A → List A × Option C
  cut_page limit rows =
      if ltb limit (length rows)
      then (take limit rows, last_cursor (take limit rows))
      else (rows, none)

  -- the rows of the query without the cursor, in order
  unfoldable pub listing_of : (A → Bool) → List A → List A
  listing_of wanted rows = order_rows (select_where wanted rows)

  unfoldable pub page_of : (A → Bool) → ℕ → Option C → List A → List A × Option C
  page_of wanted limit cursor rows =
      cut_page limit
        (take (limit + 1) (order_rows (select_where (λ i. wanted i && beyond cursor i) rows)))

  -- A client that follows the cursors, from page to page, and collects the rows.
  unfoldable pub walk : (A → Bool) → ℕ → List A → ℕ → Option C → List A
  walk wanted limit rows zero cursor = []
  walk wanted limit rows (suc fuel) cursor =
      let p = page_of wanted limit cursor rows in p.0 ++ follow p.1 (walk wanted limit rows fuel)
