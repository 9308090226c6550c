-- ===== src/PgIndex/Rows.antt =====
-- What `PgIndexProvider::get_sparse_entry` makes of the rows (crates/freighter-pg-index/src/lib.rs).
pub mod Dependencies
pub mod Released
use freighter.Base.{
  Option, none, some, List, [], ◌∷◌, Text, text_eq, codes, Result, ok, err, ◌>>=◌, ok_or, map_err,
}
use freighter.Base.Dict
use freighter.Types.Error.{AnyError, IndexError, context}
use freighter.Types.Index.{Semver, Dependency, CrateVersion, Features, SparseEntries}
use freighter.PgIndex.Tables.{CrateRow, VersionRow, FeatureRow, DependencyRow}
use freighter.PgIndex.Publish.{Codec}

-- `registry.filter(|x| !x.is_empty())`
abbrev pub filter_registry : Text → Option Text
filter_registry [] = none
filter_registry (c ∷ t) = some (c ∷ t)

-- A version with the rows of its features and of its dependencies.
abbrev pub Found : Type 0
Found = VersionRow × List FeatureRow × List (DependencyRow × CrateRow)

-- `features.insert(..)` for each row.
unfoldable pub features_of_rows : Features → List FeatureRow → Features
features_of_rows features [] = features
features_of_rows features (row ∷ rows) =
    features_of_rows (Dict.insert row.name row.values features) rows

module _ {S : Semver} (C : Codec S) where
  unfoldable pub dependency_of_row : DependencyRow × CrateRow → Result AnyError (Dependency S)
  dependency_of_row (row, on) = do
    req ←
        map_err (context (codes "Failed to parse dependency version req in db"))
          (C.req_parse row.req)
    ok (record {
      name = on.name;
      req = req;
      features = row.features;
      optional = row.optional;
      default_features = row.default_features;
      target = row.target;
      kind = row.kind;
      registry = filter_registry on.registry;
      «package» = row.«package»;
    })

  unfoldable pub deps_of_rows :
      List (DependencyRow × CrateRow) → Result AnyError (List (Dependency S))
  deps_of_rows [] = ok []
  deps_of_rows (row ∷ rows) = do
    dep ← dependency_of_row row
    deps ← deps_of_rows rows
    ok (dep ∷ deps)

  unfoldable pub version_of_row : Text → Found → Result AnyError (CrateVersion S)
  version_of_row crate_name (row, features, dependencies) = do
    deps ← deps_of_rows dependencies
    cksum ← map_err (context (codes "Bad checksum")) (C.hex_decode row.cksum)
    vers ←
        map_err (context (codes "Failed to parse crate version in db"))
          (C.version_parse row.version)
    ok (record {
      name = crate_name;
      vers = vers;
      deps = deps;
      cksum = cksum;
      features = features_of_rows [] features;
      yanked = row.yanked;
      links = row.links;
      v = 2;
      features2 = [];
    })

  -- The loop over the results.
  unfoldable pub versions_of :
      Text → List (Result AnyError Found) → Result AnyError (List (CrateVersion S))
  versions_of crate_name [] = ok []
  versions_of crate_name (query_res ∷ rest) = do
    found ← query_res
    version ← version_of_row crate_name found
    versions ← versions_of crate_name rest
    ok (version ∷ versions)

-- `try_join!` of the two requests for a version.
unfoldable pub found_of :
    VersionRow
    → Result AnyError (List FeatureRow)
    → Result AnyError (List (DependencyRow × CrateRow))
    → Result AnyError Found
found_of row features dependencies =
    map_err (context (codes "Failed to query features or dependencies for crate"))
      (do fs ← features; ds ← dependencies; ok (row, fs, ds))

unfoldable pub sparse_entries :
    {S : Semver} → Result AnyError (List (CrateVersion S)) → Result IndexError (SparseEntries S)
sparse_entries (ok versions) = ok (record { entries = versions; last_modified = none })
sparse_entries (err e) = err (IndexError.service_error e)
