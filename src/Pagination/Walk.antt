-- ===== src/Pagination/Walk.antt =====
-- Walking all pages of a `KeysetPaginator` (kit-data/kit_data/pagination.py).
use mathlib.Core.List.{append-nil, append_assoc}
use native.Mathlib.Numerals.{add-one}
use kit_api_optimization.Prelude.{
  ℕ, zero, suc, ◌+◌, ◌≤◌, ◌<◌, ltb, ltb→lt, length, take, drop, length-take, length-drop,
  take-append-drop, ◌≡◌, refl, sym, ap, ◌∙◌, true, false, Bool-cases, inl, inr, Option, none, some,
  List, [], ◌∷◌, ◌++◌, arith,
}
use kit_api_optimization.Pagination.{KeysetPaginator, last_key, page, iter_items}

module _ {Row : Type 0} where
  take-take-suc : (n : ℕ) (xs : List Row) → take n (take (suc n) xs) ≡ take n xs
  take-take-suc zero xs = refl
  take-take-suc (suc n) [] = refl
  take-take-suc (suc n) (x ∷ xs) = ap (λ ys. x ∷ ys) (take-take-suc n xs)

  take_all : (n : ℕ) (xs : List Row) → length xs ≤ n → take n xs ≡ xs
  take_all zero [] h = refl
  take_all zero (x ∷ xs) h = absurd (omega arith)
  take_all (suc n) [] h = refl
  take_all (suc n) (x ∷ xs) h = ap (λ ys. x ∷ ys) (take_all n xs (omega arith))

  -- A list that is not empty ends in an element, whose key `last_key` returns.
  last_key-snoc :
      {C : Type 0} (key : Row → C) (y : Row) (xs : List Row)
      → (before : List Row) × (x : Row) × (y ∷ xs ≡ before ++ x ∷ [])
        × (last_key key (y ∷ xs) ≡ some (key x))
  last_key-snoc key y [] = ([], y, refl, refl)
  last_key-snoc key y (z ∷ xs) =
      let (before, x, eq, last) = last_key-snoc key z xs in
      (y ∷ before, x, ap (λ ys. y ∷ ys) eq, last)

module _ {Row C : Type 0} where
  -- What the docstring asks of `fetch(after, limit)`: at most `limit` of the rows after the cursor,
  -- in the order of the keyset, where the rows after the key of a row are those that follow it.
  pub record IsKeyset (p : KeysetPaginator Row C) (rows_after : Option C → List Row) : Type 0 where
    pub fetches :
        (after : Option C) (limit : ℕ) → p.fetch after limit ≡ take limit (rows_after after)
    pub seeks :
        (after : Option C) (before : List Row) (x : Row) (rest : List Row)
        → rows_after after ≡ before ++ x ∷ rest
        → rows_after (some (p.key x)) ≡ rest

module _ {Row C : Type 0} (p : KeysetPaginator Row C) (rows_after : Option C → List Row)
    (k : IsKeyset p rows_after) where
  page-items : (after : Option C) → (page p after).items ≡ take p.page_size (rows_after after)
  unfolding page
  page-items after = rw (k.fetches, add-one) (take-take-suc p.page_size (rows_after after))

  page-has_more :
      (after : Option C) → (page p after).has_more ≡ ltb p.page_size (length (rows_after after))
  unfolding page
  page-has_more after =
      rw k.fetches (ground (arith, length-take (p.page_size + 1) (rows_after after)))

  cursor-last_key :
      (after : Option C)
      → p.page_size < length (rows_after after)
      → (page p after).next_cursor ≡ last_key p.key (take p.page_size (rows_after after))
  unfolding page
  cursor-last_key after more =
      rw (k.fetches, add-one, take-take-suc)
        (ground (arith, length-take (suc p.page_size) (rows_after after)))

  page-next_cursor :
      (after : Option C)
      → 1 ≤ p.page_size
      → p.page_size < length (rows_after after)
      → rows_after (page p after).next_cursor ≡ drop p.page_size (rows_after after)
  page-next_cursor after positive more = go (take p.page_size (rows_after after)) refl
    where
      split : List Row → Type 0
      split items = items ++ drop p.page_size (rows_after after) ≡ rows_after after

      go :
          (items : List Row)
          → items ≡ take p.page_size (rows_after after)
          → rows_after (page p after).next_cursor ≡ drop p.page_size (rows_after after)
      go [] e = absurd (omega (arith, ap length e, length-take p.page_size (rows_after after)))
      go (y ∷ ys) e =
          let (before, x, snoc, last) = last_key-snoc p.key y ys in
          let whole : split (y ∷ ys) =
            ap (λ items. items ++ drop p.page_size (rows_after after)) e
            ∙ take-append-drop p.page_size (rows_after after) in
          ap rows_after (cursor-last_key after more ∙ ap (last_key p.key) (sym e) ∙ last)
          ∙ k.seeks after before x (drop p.page_size (rows_after after)) (
              sym whole
              ∙ ap (λ items. items ++ drop p.page_size (rows_after after)) snoc
              ∙ append_assoc before (x ∷ []) (drop p.page_size (rows_after after)))

  page-last :
      (after : Option C) → (page p after).has_more ≡ false → (page p after).next_cursor ≡ none
  unfolding page
  page-last after done = rw done

  -- One page holds the next `page_size` rows after the cursor, or all that are left. It says that
  -- there are more exactly when there are, and then its cursor leads to the rows that follow it;
  -- the last page has no cursor.
  pub page_exact :
      (after : Option C)
      → 1 ≤ p.page_size
      → let current = page p after in
        (current.items ≡ take p.page_size (rows_after after))
        × (current.has_more ≡ ltb p.page_size (length (rows_after after)))
        × (current.has_more ≡ true
            → rows_after current.next_cursor ≡ drop p.page_size (rows_after after))
        × (current.has_more ≡ false → current.next_cursor ≡ none)
  page_exact after positive = (
    page-items after,
    page-has_more after,
    λ more. page-next_cursor after positive (ltb→lt _ _ (sym (page-has_more after) ∙ more)),
    page-last after,
  )

  -- From any cursor the walk ends by itself: with fuel for one page more than there are rows, it
  -- yields every row after the cursor once, in the order of the keyset.
  pub iter_items_complete :
      (fuel : ℕ) (after : Option C)
      → 1 ≤ p.page_size
      → length (rows_after after) < fuel
      → iter_items p fuel after ≡ rows_after after
  unfolding iter_items
  iter_items_complete zero after positive enough = elim enough [ ]
  iter_items_complete (suc fuel) after positive enough =
      elim (Bool-cases (ltb p.page_size (length (rows_after after)))) [
        | inl more ↦
            let next = page-next_cursor after positive (ground arith) in
            rw (page-has_more, more, page-items)
              (ap (λ rest. take p.page_size (rows_after after) ++ rest)
                  (iter_items_complete fuel (page p after).next_cursor positive (
                      omega (
                        arith,
                        ltb→lt _ _ more,
                        ap length next,
                        length-drop p.page_size (rows_after after),
                      ))
                    ∙ next)
                ∙ take-append-drop p.page_size (rows_after after))
        | inr done ↦
            rw (page-has_more, done, page-items)
              (append-nil _ ∙ take_all p.page_size (rows_after after) (ground arith))
      ]
