-- ===== src/Paging.antt =====
-- src/webhook_platform/shared/domain/pagination.py, and the keyset pages that the repositories of
-- endpoints, events, deliveries and organizations make of a table (WHERE the row comes after the
-- cursor, ORDER BY created_at and id, LIMIT).
pub mod Sorted
pub mod Pieces
pub mod Walk
pub mod Cursors
use webhook_delivery_platfor.Base.{
  ℕ, zero, suc, ◌+◌, Bool, true, ◌&&◌, ◌||◌, Option, none, some, List, [], ◌∷◌, ltb, ◌==◌,
  if◌then◌else◌, length, take, get_elem?, get_last?, select, order_by,
}

-- The pair (created_at, id) of a row.
pub record Cursor : Type 0 where
  pub created_at : ℕ
  pub id : ℕ

-- A row with the key `k` comes after the cursor `c`, newest first.
abbrev pub is_older : Cursor → Cursor → Bool
is_older c k = ltb k.created_at c.created_at || (k.created_at == c.created_at && ltb k.id c.id)

-- The same, oldest first.
abbrev pub is_newer : Cursor → Cursor → Bool
is_newer c k = ltb c.created_at k.created_at || (k.created_at == c.created_at && ltb c.id k.id)

-- rows[limit - 1], with Python's negative index.
abbrev pub item_at {ℓ} : {A : Type ℓ} → ℕ → List A → Option A
item_at zero rows = get_last? rows
item_at (suc n) rows = get_elem? rows n

module _ {ℓ} {A : Type ℓ} (later : Cursor → Cursor → Bool) (key : A → Cursor) where
  -- if cursor: query = query.where(...)
  abbrev pub after_cursor : Option Cursor → A → Bool
  after_cursor none r = true
  after_cursor (some c) r = later c (key r)

  -- The rows that a repository returns.
  unfoldable pub fetch : (A → Bool) → Option Cursor → ℕ → List A → List A
  fetch p cursor limit t =
      take limit
        (order_by (λ r s. later (key r) (key s)) (select (λ r. p r && after_cursor cursor r) t))

  -- rows[:limit], and the item whose key is the next cursor.
  unfoldable pub page_of : ℕ → List A → List A × Option A
  page_of limit rows =
      (take limit rows, if ltb limit (length rows) then item_at limit rows else none)

  -- One page: the use case asks its repository for one row more than the limit.
  unfoldable pub page : (A → Bool) → Option Cursor → ℕ → List A → List A × Option A
  unfolding fetch page_of
  page p cursor limit t = page_of limit (fetch p cursor (limit + 1) t)
