-- ===== src/Pagination/Table.antt =====
-- A table in memory, sorted by a key that no two rows share, is a keyset for `KeysetPaginator`
-- (kit-data/kit_data/pagination.py): what `fetch` is written for. Rows are their own keys.
use mathlib.Core.Path.{subst}
use kit_api_optimization.Prelude.{
  ℕ, ◌<◌, ltb, take, ◌≡◌, refl, Option, none, some, List, [], ◌∷◌, ◌++◌, arith, All, Bool-cases,
  inl, inr, ltb→lt, ap, ◌∙◌, if◌then◌else◌,
}
use kit_api_optimization.Pagination.{KeysetPaginator}
use kit_api_optimization.Pagination.Walk.{IsKeyset}

-- `WHERE key > :cursor`, over rows in ascending order
abbrev pub above : ℕ → List ℕ → List ℕ
above c [] = []
above c (x ∷ xs) = let rest = above c xs in if ltb c x then x ∷ xs else rest

abbrev pub rows_after : List ℕ → Option ℕ → List ℕ
rows_after table none = table
rows_after table (some c) = above c table

abbrev pub IsAscending : List ℕ → Type 0
IsAscending [] = Unit
IsAscending (x ∷ xs) = All (λ y. x < y) xs × IsAscending xs

abbrev pub paginator : List ℕ → ℕ → KeysetPaginator ℕ ℕ
paginator table page_size = record {
  fetch = λ after limit. take limit (rows_after table after);
  key = λ row. row;
  page_size = page_size;
}

above-All : (x : ℕ) (rest : List ℕ) → All (λ y. x < y) rest → above x rest ≡ rest
above-All x [] h = refl
above-All x (y ∷ rest) h = ground arith

lt_of_All : (b x : ℕ) (bs rest : List ℕ) → All (λ y. b < y) (bs ++ x ∷ rest) → b < x
lt_of_All b x [] rest h = h.0
lt_of_All b x (y ∷ bs) rest h = lt_of_All b x bs rest h.1

above-append :
    (before : List ℕ) (x : ℕ) (rest : List ℕ)
    → IsAscending (before ++ x ∷ rest)
    → above x (before ++ x ∷ rest) ≡ rest
above-append [] x rest a = ground (arith, above-All x rest a.0)
above-append (b ∷ bs) x rest a =
    ground (arith, lt_of_All b x bs rest a.0, above-append bs x rest a.1)

above-eq :
    (before : List ℕ) (x : ℕ) (rest rows : List ℕ)
    → IsAscending rows
    → rows ≡ before ++ x ∷ rest
    → above x rows ≡ rest
above-eq before x rest rows a e =
    ap (above x) e ∙ above-append before x rest (subst IsAscending e a)

All-lt_trans : (c y : ℕ) (xs : List ℕ) → c < y → All (λ z. y < z) xs → All (λ z. c < z) xs
All-lt_trans c y [] h a = tt
All-lt_trans c y (x ∷ xs) h a = (omega arith, All-lt_trans c y xs h a.1)

above-lt : (c : ℕ) (table : List ℕ) → IsAscending table → All (λ z. c < z) (above c table)
above-lt c [] a = tt
above-lt c (x ∷ xs) a = elim (Bool-cases (ltb c x)) [
  | inl later ↦ rw later (ltb→lt c x later, All-lt_trans c x xs (ltb→lt c x later) a.0)
  | inr seen ↦ rw seen (above-lt c xs a.1)
]

-- Going on from `x` inside the rows above `c` is going on from `x` in the table.
above-above :
    (c x : ℕ) (table before rest : List ℕ)
    → IsAscending table
    → above c table ≡ before ++ x ∷ rest
    → above x table ≡ rest
above-above c x [] [] rest a e = cc
above-above c x [] (b ∷ before) rest a e = cc
above-above c x (y ∷ table) before rest a e = elim (Bool-cases (ltb c y)) [
  | inl later ↦
      let whole : y ∷ table ≡ before ++ x ∷ rest = rw later at e in
      above-eq before x rest (y ∷ table) a whole
  | inr seen ↦
      let found : above c table ≡ before ++ x ∷ rest = rw seen at e in
      let after : c < x = lt_of_All c x before rest (rw found at (above-lt c table a.1)) in
      ground (arith, seen, after, above-above c x table before rest a.1 found)
]

-- The in-memory table meets the contract of `fetch`.
pub paginator-IsKeyset :
    (table : List ℕ) (page_size : ℕ)
    → IsAscending table
    → IsKeyset (paginator table page_size) (rows_after table)
paginator-IsKeyset table page_size a = record {
  fetches = λ after limit. refl;
  seeks = λ after before x rest.
      elim after as (λ o. rows_after table o ≡ before ++ x ∷ rest → above x table ≡ rest) [
        | none ↦ above-eq before x rest table a
        | some c ↦ above-above c x table before rest a
      ];
}
