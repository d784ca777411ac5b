-- ===== src/Pagination.antt =====
-- kit-data/kit_data/pagination.py: `KeysetPaginator`. `fetch` and `key` belong to the application.
pub mod Walk
pub mod Table
mod Tests
use kit_api_optimization.Prelude.{
  ℕ, zero, suc, ◌+◌, ltb, leb, length, take, Bool, true, false, ◌&&◌, Option, none, some, List, [],
  ◌∷◌, ◌++◌, if◌then◌else◌,
}
use kit_api_optimization.Exceptions.{Result, ok, err, value_error}

pub record Page (Row C : Type 0) : Type 0 where
  pub items : List Row
  pub next_cursor : Option C
  pub has_more : Bool

-- the arguments of the constructor
pub record KeysetPaginator (Row C : Type 0) : Type 0 where
  pub fetch : Option C → ℕ → List Row
  pub key : Row → C
  pub page_size : ℕ

-- `__init__`
unfoldable pub init :
    {Row C : Type 0} → (Option C → ℕ → List Row) → (Row → C) → ℕ → Result (KeysetPaginator Row C)
init fetch key page_size =
    if ltb page_size 1
    then err value_error
    else ok (record { fetch = fetch; key = key; page_size = page_size })

module _ {Row C : Type 0} where
  -- `key(items[-1]) if items else None`
  abbrev pub last_key : (Row → C) → List Row → Option C
  last_key key [] = none
  last_key key (x ∷ []) = some (key x)
  last_key key (x ∷ y ∷ xs) = last_key key (y ∷ xs)

  unfoldable pub page : KeysetPaginator Row C → Option C → Page Row C
  page p after =
      let rows = p.fetch after (p.page_size + 1) in
      let more = ltb p.page_size (length rows) in
      let items = take p.page_size rows in
      record {
        items = items;
        next_cursor = if more then last_key p.key items else none;
        has_more = more;
      }

  -- The generator, for at most as many pages as the fuel allows.
  pub iter_pages : KeysetPaginator Row C → ℕ → Option C → List (Page Row C)
  iter_pages p zero cursor = []
  iter_pages p (suc fuel) cursor =
      let current = page p cursor in
      let rest = iter_pages p fuel current.next_cursor in
      current ∷ (if current.has_more then rest else [])

  abbrev pub all_items : List (Page Row C) → List Row
  all_items [] = []
  all_items (x ∷ pages) = x.items ++ all_items pages

  unfoldable pub iter_items : KeysetPaginator Row C → ℕ → Option C → List Row
  unfolding iter_pages
  iter_items p fuel after = all_items (iter_pages p fuel after)
