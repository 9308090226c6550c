-- ===== src/PgIndex/Provider/Listing.antt =====
-- `search` and `list` of `PgIndexProvider` (crates/freighter-pg-index/src/lib.rs).
use Prim.Native.Nat.{compare, Ordering}
use freighter.Base.{
  ok, err, ℕ, zero, suc, Bool, ◌&&◌, Option, none, some, List, [], ◌∷◌, map, take, drop, retain,
  length, any, unwrap_or, has_infix, eqb, Text, text_eq, codes, Result, if◌then◌else◌, false, true,
}
use freighter.Base.Acts.{Act, ◌>>=◌, ◌>>◌, lift}
use freighter.Base.Order.{text_cmp, is_less, sort}
use freighter.Types.Error.{panicked, IndexError}
use freighter.Types.Index.{Semver, SearchResults, SearchResultsEntry, ListAllCrateEntry}
use freighter.Types.IndexProvider.{ListQuery}
use freighter.PgIndex.Tables.{CrateRow, Tables, Statement}
use freighter.PgIndex.Tables.Names.{linked_names}
use freighter.PgIndex.Session.{Database, Session, query, prepare}
use freighter.PgIndex.Publish.{Codec}
use freighter.PgIndex.Provider.{connection}

-- A row of search.sql.
pub record SearchRow : Type 0 where
  pub name : Text
  pub description : Option Text
  pub versions : List Text
  pub count : ℕ

-- A row of list.sql; `None` for no keywords or categories has become the empty list.
pub record ListRow : Type 0 where
  pub row : CrateRow
  pub versions : List Text
  pub keywords : List Text
  pub categories : List Text

-- `distinct`
unfoldable pub distinct {ℓ} : {A : Type ℓ} → (A → A → Bool) → List A → List A
distinct eq [] = []
distinct eq (x ∷ xs) = let rest = distinct eq xs in if any (eq x) xs then rest else x ∷ rest

-- `array_agg(distinct cv.version)`: a crate has a version once.
abbrev pub versions_of_crate : ℕ → Tables → List Text
versions_of_crate id t = map (λ v. v.version) (retain (λ v. eqb v.«crate» id) t.versions)

-- `count(distinct concat(d.dependent, crates.id))`: a crate that nothing depends on has one row, in
-- which `dependent` is null.
unfoldable pub count_of_crate : ℕ → Tables → ℕ
count_of_crate id t =
    elim (distinct eqb
      (map (λ d. d.dependent) (retain (λ d. eqb d.dependency id) t.dependencies))) [
        | [] ↦ 1
        | d ∷ ds ↦ suc (length ds)
      ]

-- A crate of this registry that has a version.
abbrev is_own : Tables → CrateRow → Bool
is_own t c = elim c.registry [
  | [] ↦ elim (versions_of_crate c.id t) [ [] ↦ false | _ ∷ _ ↦ true ]
  | _ ∷ _ ↦ false
]

-- search.sql
unfoldable pub search_rows : Text → Statement (List SearchRow)
search_rows query_string t = some (
  map
      (λ c. record {
        name = c.name;
        description = c.description;
        versions = versions_of_crate c.id t;
        count = count_of_crate c.id t;
      })
      (retain (λ c. is_own t c && has_infix query_string c.name) t.crates),
  t,
)

-- list.sql
unfoldable pub list_rows : Statement (List ListRow)
list_rows t = some (
  map
      (λ c. record {
        row = c;
        versions = versions_of_crate c.id t;
        keywords = distinct (text_eq.beq) (linked_names c.id t.crate_keywords t.keywords);
        categories = distinct (text_eq.beq) (linked_names c.id t.crate_categories t.categories);
      })
      (retain (is_own t) t.crates),
  t,
)

-- The comparison of `search`: descending counts, then names.
unfoldable pub search_order : SearchRow → SearchRow → Ordering
search_order a b = elim (compare a.count b.count) [
  | Ordering.lt ↦ Ordering.gt
  | Ordering.eq ↦ text_cmp a.name b.name
  | Ordering.gt ↦ Ordering.lt
]

unfoldable pub list_order : ListRow → ListRow → Ordering
list_order a b = text_cmp a.row.name b.row.name

-- `rows.chunks(per_page).nth(page).unwrap_or(&[])`; a `per_page` of 0 panics before that.
unfoldable pub nth_chunk {ℓ} : {A : Type ℓ} → ℕ → ℕ → List A → List A
nth_chunk per_page zero rows = take per_page rows
nth_chunk per_page (suc page) rows = nth_chunk per_page page (drop per_page rows)

-- The rows that the query asks for.
unfoldable pub page_of {ℓ} : {A : Type ℓ} → ListQuery → List A → Option (List A)
page_of pagination rows = elim pagination.per_page [
  | none ↦ some rows
  | some zero ↦ none
  | some (suc n) ↦ some (nth_chunk (suc n) (unwrap_or pagination.page 0) rows)
]

-- `collect` of what may panic.
unfoldable pub collect : {A B : Type 0} → (A → Option B) → List A → Result IndexError (List B)
collect f [] = ok []
collect f (a ∷ l) = elim (f a) [
  | none ↦ err panicked
  | some b ↦ elim (collect f l) [ err e ↦ err e | ok bs ↦ ok (b ∷ bs) ]
]

module _ {S : Semver} (C : Codec S) where
  unfoldable pub parse_all : List Text → Option (List S.Version)
  parse_all [] = some []
  parse_all (v ∷ vs) = elim (C.version_parse v) [
    | err e ↦ none
    | ok version ↦ elim (parse_all vs) [ none ↦ none | some rest ↦ some (version ∷ rest) ]
  ]

  -- `Iterator::max` behind a first element: the last of the greatest ones.
  unfoldable pub max_from : S.Version → List S.Version → S.Version
  max_from best [] = best
  max_from best (v ∷ vs) = max_from (if is_less (S.version_cmp v best) then best else v) vs

  unfoldable pub search_row_to_entry : SearchRow → Option (SearchResultsEntry S)
  search_row_to_entry row = elim (parse_all row.versions) [
    | some (v ∷ vs) ↦ some (record {
      name = row.name;
      max_version = max_from v vs;
      description = unwrap_or row.description [];
    })
    | some [] ↦ none
    | none ↦ none
  ]

  -- `none` where a version does not parse or a time is missing, which panics.
  unfoldable pub list_row_to_entry : ListRow → Option (ListAllCrateEntry S)
  list_row_to_entry r = elim (parse_all r.versions) [
    | none ↦ none
    | some versions ↦ elim r.row.updated_at [
      | none ↦ none
      | some updated_at ↦ some (record {
        name = r.row.name;
        versions = versions;
        description = unwrap_or r.row.description [];
        created_at = r.row.created_at;
        updated_at = updated_at;
        homepage = r.row.homepage;
        repository = r.row.repository;
        documentation = r.row.documentation;
        keywords = r.keywords;
        categories = r.categories;
      })
    ]
  ]

  -- What `search` makes of the rows.
  unfoldable pub search_results : ℕ → List SearchRow → Result IndexError (SearchResults S)
  search_results limit rows =
      elim (collect search_row_to_entry (take limit (sort search_order rows))) [
        | err e ↦ err e
        | ok crates ↦ ok (record { crates = crates; total = length rows })
      ]

  -- What `list` makes of the rows.
  unfoldable pub list_results :
      ListQuery → List ListRow → Result IndexError (List (ListAllCrateEntry S))
  list_results pagination rows = elim (page_of pagination (sort list_order rows)) [
    | none ↦ err panicked
    | some page ↦ collect list_row_to_entry page
  ]

  module _ (D : Database) where
    unfoldable pub search : Text → ℕ → Act Session IndexError (SearchResults S)
    search query_string limit = do
      connection D
      prepare D (codes "Failed to prepare search statement")
      rows ← query D (codes "Failed to execute search query") (search_rows query_string)
      lift (search_results limit rows)

    unfoldable pub list : ListQuery → Act Session IndexError (List (ListAllCrateEntry S))
    list pagination = do
      connection D
      prepare D (codes "Failed to prepare search statement")
      rows ← query D (codes "Failed to execute search query") list_rows
      lift (list_results pagination rows)
