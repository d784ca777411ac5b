-- ===== src/Pagination/Tests.antt =====
-- `KeysetPaginator` at concrete inputs, over a table in memory.
use kit_api_optimization.Prelude.{ℕ, ◌≡◌, refl, true, none, some, List, [], ◌∷◌, arith}
use kit_api_optimization.Pagination.{page, iter_items}
use kit_api_optimization.Pagination.Walk.{IsKeyset, iter_items_complete}
use kit_api_optimization.Pagination.Table.{rows_after, IsAscending, paginator, paginator-IsKeyset}

abbrev table : List ℕ
table = 1 ∷ 3 ∷ 4 ∷ 8 ∷ 9 ∷ []

table-IsAscending : IsAscending table
table-IsAscending = ground arith

table-IsKeyset : IsKeyset (paginator table 2) (rows_after table)
table-IsKeyset = paginator-IsKeyset table 2 table-IsAscending

second_page :
    page (paginator table 2) (some 3)
    ≡ record { items = 4 ∷ 8 ∷ []; next_cursor = some 8; has_more = true }
unfolding page
second_page = refl

iter_items_complete_example : iter_items (paginator table 2) 6 none ≡ table
iter_items_complete_example =
    iter_items_complete (paginator table 2) (rows_after table) table-IsKeyset 6 none (omega arith)
      (omega arith)

paginator-IsKeyset_example : IsKeyset (paginator table 3) (rows_after table)
paginator-IsKeyset_example = paginator-IsKeyset table 3 table-IsAscending
