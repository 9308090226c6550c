-- ===== src/FsIndex/Provider/Search.antt =====
-- `search` of `FsIndexProvider` (crates/freighter-fs-index/src/lib.rs). The files are read by tasks
-- that end in any order: `ended` puts their results into the order in which they end.
use freighter.Base.{
  ℕ, ltb, ◌≤◌, ◌≡◌, Option, none, some, List, [], ◌∷◌, map, take, retain, length, unwrap_or,
  has_infix, Text, codes, Result, ok, err, ◌>>=◌, map_err, if◌then◌else◌, length-take-le,
  length-take-drop, length-map, arith, Result-cases, inl, inr,
}
use freighter.Types.Error.{IndexError, context, index_of_storage, any_of_index}
use freighter.Types.Index.{
  Semver, CrateVersion, Publish, SparseEntries, SearchResults, SearchResultsEntry,
}
use freighter.Storage.Metadata.{MetadataStorage}
use freighter.FsIndex.Meta.{Json, deserialize_data}

-- What a task of `get_latest_crate_publishes` ends with.
abbrev pub Fetched : Semver → Type 0
Fetched S = Result IndexError (SparseEntries S × Option (Publish S))

module _ {S : Semver} where
  -- `Vec::pop`: the last version.
  unfoldable pub last_version : List (CrateVersion S) → Option (CrateVersion S)
  last_version [] = none
  last_version (v ∷ vs) = elim (last_version vs) [ none ↦ some v | some last ↦ some last ]

  -- The description of a request, or the empty one.
  unfoldable pub description_of : Option (Publish S) → Text
  description_of none = []
  description_of (some p) = unwrap_or p.description []

  -- The loop over the results.
  unfoldable pub found_entries : List (Fetched S) → List (SearchResultsEntry S)
  found_entries [] = []
  found_entries (err e ∷ handles) = found_entries handles
  found_entries (ok (versions, publish_meta) ∷ handles) = elim (last_version versions.entries) [
    | none ↦ found_entries handles
    | some most_recent ↦
        record {
          name = most_recent.name;
          max_version = most_recent.vers;
          description = description_of publish_meta;
        }
        ∷ found_entries handles
  ]

  length-found_entries :
      (handles : List (Fetched S)) → length (found_entries handles) ≤ length handles
  unfolding found_entries
  length-found_entries [] = omega arith
  length-found_entries (err e ∷ handles) = omega (arith, length-found_entries handles)
  length-found_entries (ok (versions, publish_meta) ∷ handles) =
      ground (arith, length-found_entries handles)

module _ {S : Semver} (J : Json S) (F : MetadataStorage) where
  -- One task of `get_latest_crate_publishes`.
  unfoldable pub fetch_latest : F.State → Text → Fetched S
  fetch_latest s index_key = do
    res ← map_err index_of_storage (F.pull_file index_key s)
    (entries, publish) ←
        map_err
          (λ e.
            IndexError.service_error
              (context (codes "deserializing index file for list") (any_of_index e)))
          (deserialize_data J res.«data»)
    ok (record { entries = entries; last_modified = res.last_modified }, publish)

  module _ (ended : List (Fetched S) → List (Fetched S)) where
    unfoldable pub search : Text → ℕ → F.State → Result IndexError (SearchResults S)
    search query_string limit s = do
      index_keys ← map_err index_of_storage (F.list_prefix (codes "index/") s)
      let matching = retain (has_infix query_string) index_keys
      let first = take (if ltb limit 100 then limit else 100) matching
      ok (record {
        crates = found_entries (ended (map (fetch_latest s) first));
        total = length matching;
      })

    -- If every task that reads a file ends once, a search that succeeds lists at most as many
    -- crates as it is asked for, at most 100, and at most as many as its total.
    search_bounds :
        (query_string : Text) (limit : ℕ) (s : F.State) (r : SearchResults S)
        → ((rs : List (Fetched S)) → length (ended rs) ≡ length rs)
        → search query_string limit s ≡ ok r
        → (length r.crates ≤ limit) × (length r.crates ≤ 100) × (length r.crates ≤ r.total)
    unfolding search
    search_bounds query_string limit s r complete h =
        elim (Result-cases (F.list_prefix (codes "index/") s)) [
          | inr (e, failed) ↦ absurd (ground arith)
          | inl (keys, listed) ↦
              let matching = retain (has_infix query_string) keys in
              let first = take (if ltb limit 100 then limit else 100) matching in
              let rs = map (fetch_latest s) first in
              let bound : length (found_entries (ended rs)) ≤ length first = omega (
                arith,
                length-found_entries (ended rs),
                complete rs,
                length-map (fetch_latest s) first,
              ) in
              let result : r
                  ≡ record { crates = found_entries (ended rs); total = length matching } =
                ground arith in
              rw result (
                ground
                    (arith, bound, length-take-le (if ltb limit 100 then limit else 100) matching),
                ground
                    (arith, bound, length-take-le (if ltb limit 100 then limit else 100) matching),
                omega (
                  arith,
                  bound,
                  length-take-drop (if ltb limit 100 then limit else 100) matching,
                ),
              )
        ]
