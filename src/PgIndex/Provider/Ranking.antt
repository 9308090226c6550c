-- ===== src/PgIndex/Provider/Ranking.antt =====
-- The order and the pages of `search` and `list` of `PgIndexProvider`
-- (crates/freighter-pg-index/src/lib.rs).
use freighter.Base.{
  append_assoc, append-nil, sym, ◌≡◌, refl, ◌∙◌, ap, ℕ, zero, suc, ◌+◌, ◌*◌, some, List, [], ◌∷◌,
  ◌++◌, map, take, drop, length, unwrap_or, ok, Option-cases, Result-cases, inl, inr, arith,
}
use freighter.Base.Order.{IsFlipped, IsSorted, text_cmp-IsFlipped, sort, sort-IsSorted}
use freighter.Types.Index.{Semver, SearchResults, SearchResultsEntry}
use freighter.PgIndex.Publish.{Codec}
use freighter.PgIndex.Provider.Listing.{
  SearchRow, search_order, nth_chunk, page_of, collect, search_row_to_entry, search_results,
  parse_all,
}

search_order-IsFlipped : IsFlipped search_order
unfolding search_order
search_order-IsFlipped a b = ground (arith, text_cmp-IsFlipped a.name b.name)

-- The first `n` pages, one behind the other.
unfoldable pub first_pages {ℓ} : {A : Type ℓ} → ℕ → ℕ → List A → List A
first_pages per_page zero rows = []
first_pages per_page (suc n) rows =
    first_pages per_page n rows
    ++ unwrap_or (page_of (record { per_page = some per_page; page = some n }) rows) []

module _ {ℓ} {A : Type ℓ} where
  take_nil : (n : ℕ) → take {A = A} n [] ≡ []
  take_nil zero = refl
  take_nil (suc n) = refl

  take_add : (m n : ℕ) (rows : List A) → take (m + n) rows ≡ take m rows ++ take n (drop m rows)
  take_add zero n rows = ap (λ m. take m rows) (omega arith)
  take_add (suc m) n [] = take_nil (suc m + n) ∙ sym (take_nil n)
  take_add (suc m) n (x ∷ rows) =
      let sum : suc m + n ≡ suc (m + n) = omega arith in
      ap (λ i. take i (x ∷ rows)) sum ∙ ap (◌∷◌ x) (take_add m n rows)

  first_pages_front :
      (k n : ℕ) (rows : List A)
      → first_pages (suc k) (suc n) rows
        ≡ take (suc k) rows ++ first_pages (suc k) n (drop (suc k) rows)
  unfolding first_pages page_of nth_chunk
  first_pages_front k zero rows = sym (append-nil (take (suc k) rows))
  first_pages_front k (suc n) rows =
      ap (λ pages. pages ++ nth_chunk (suc k) n (drop (suc k) rows)) (first_pages_front k n rows)
      ∙ append_assoc (take (suc k) rows) (first_pages (suc k) n (drop (suc k) rows)) _

  -- The first `n` pages of at least one row each are, one behind the other, as many rows from the
  -- start.
  pub pages_together :
      (k n : ℕ) (rows : List A) → first_pages (suc k) n rows ≡ take (n * suc k) rows
  unfolding first_pages
  pages_together k zero rows =
      let none_yet : 0 ≡ 0 * suc k = omega arith in ap (λ i. take i rows) none_yet
  pages_together k (suc n) rows =
      let more : suc k + n * suc k ≡ suc n * suc k = omega arith in
      first_pages_front k n rows
      ∙ ap (λ rest. take (suc k) rows ++ rest) (pages_together k n (drop (suc k) rows))
      ∙ sym (take_add (suc k) (n * suc k) rows)
      ∙ ap (λ i. take i rows) more

module _ {S : Semver} (C : Codec S) where
  search_row_to_entry-name :
      (row : SearchRow) (e : SearchResultsEntry S)
      → search_row_to_entry C row ≡ some e
      → e.name ≡ row.name
  unfolding search_row_to_entry
  search_row_to_entry-name row e h = elim (Option-cases (parse_all C row.versions)) [
    | inl bad ↦ absurd (ground arith)
    | inr ([], parsed) ↦ absurd (ground arith)
    | inr (v ∷ vs, parsed) ↦ ground arith
  ]

  collect-names :
      (rows : List SearchRow) (crates : List (SearchResultsEntry S))
      → collect (search_row_to_entry C) rows ≡ ok crates
      → map (λ e. e.name) crates ≡ map (λ r. r.name) rows
  unfolding collect
  collect-names [] crates h = ground arith
  collect-names (row ∷ rows) crates h = elim (Option-cases (search_row_to_entry C row)) [
    | inl bad ↦ absurd (ground arith)
    | inr (entry, good) ↦ elim (Result-cases (collect (search_row_to_entry C) rows)) [
      | inr (e, failed) ↦ absurd (ground arith)
      | inl (entries, done) ↦
          let named = search_row_to_entry-name row entry good in
          ground (arith, collect-names rows entries done)
    ]
  ]

  -- A search gives the names of the first rows, by descending counts and, where these are equal, by
  -- name; its total is the number of all rows.
  search_ranked :
      (limit : ℕ) (rows : List SearchRow) (r : SearchResults S)
      → search_results C limit rows ≡ ok r
      → (map (λ e. e.name) r.crates ≡ map (λ x. x.name) (take limit (sort search_order rows)))
        × IsSorted search_order (sort search_order rows)
        × (r.total ≡ length rows)
  unfolding search_results
  search_ranked limit rows r h =
      elim (Result-cases (collect (search_row_to_entry C) (take limit (sort search_order rows)))) [
        | inr (e, failed) ↦ absurd (ground arith)
        | inl (crates, done) ↦ (
          ground (arith, collect-names (take limit (sort search_order rows)) crates done),
          sort-IsSorted search_order search_order-IsFlipped rows,
          ground arith,
        )
      ]
