-- ===== src/PgIndex/Provider/Entry.antt =====
-- `get_sparse_entry` of `PgIndexProvider` (crates/freighter-pg-index/src/lib.rs). The requests for the
-- versions are under way at the same time: `ended` puts their results into the order in which they
-- end.
use freighter.Base.{none, some, List, [], ◌∷◌, Text, codes, Result, map_err}
use freighter.Base.Acts.{Act, ◌>>=◌, ◌>>◌, raise}
use freighter.Types.Error.{AnyError, IndexError}
use freighter.Types.Index.{Semver, SparseEntries}
use freighter.PgIndex.Tables.{VersionRow}
use freighter.PgIndex.Tables.Reading.{get_crate, get_versions, get_features, get_dependencies}
use freighter.PgIndex.Session.{Database, Session, ask, query, prepare}
use freighter.PgIndex.Publish.{Codec}
use freighter.PgIndex.Rows.{Found, found_of, versions_of, sparse_entries}

module _ (D : Database) where
  -- A connection of the pool, whose error is passed on as it is.
  unfoldable pub client : Act Session IndexError (Unit {0})
  client s = let (r, s') = ask D (λ t. some (tt, t)) s in (map_err IndexError.service_error r, s')

  unfoldable pub query_version : VersionRow → Session → Result AnyError Found × Session
  query_version row s =
      let (features, s') = ask D (get_features row.id) s in
      let (dependencies, s'') = ask D (get_dependencies row.id) s' in
      (found_of row features dependencies, s'')

  unfoldable pub query_versions : List VersionRow → Session → List (Result AnyError Found) × Session
  query_versions [] s = ([], s)
  query_versions (row ∷ rows) s =
      let (found, s') = query_version row s in
      let (rest, s'') = query_versions rows s' in (found ∷ rest, s'')

  module _ {S : Semver} (C : Codec S)
      (ended : List (Result AnyError Found) → List (Result AnyError Found)) where
    unfoldable pub entries_of : Text → List VersionRow → Act Session IndexError (SparseEntries S)
    entries_of crate_name rows s =
        let (found, s') = query_versions rows s in
        (sparse_entries (versions_of C crate_name (ended found)), s')

    unfoldable pub get_sparse_entry : Text → Act Session IndexError (SparseEntries S)
    get_sparse_entry crate_name = do
      client
      prepare D (codes "Failed to prepare transaction")
      crate_row ← query D (codes "Failed to query for crate existence") (get_crate crate_name)
      elim crate_row [
        | none ↦ raise IndexError.not_found
        | some id ↦ query D (codes "Failed to query versions") (get_versions id) >>= λ rows.
            entries_of crate_name rows
      ]
