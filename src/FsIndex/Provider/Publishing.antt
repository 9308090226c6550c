-- ===== src/FsIndex/Provider/Publishing.antt =====
-- `FsIndexProvider::publish`: all or nothing, no version twice, and no other crate touched.
use freighter.Base.{
  ◌∙◌, ◌≡◌, ◌≢◌, true, false, List, [], ◌∷◌, ◌++◌, Text, Bytes, Result, ok, err, ap, Result-cases,
  inl, inr, arith, to_ascii_lowercase,
}
use freighter.Base.Acts.{Act}
use freighter.Types.Error.{IndexError, conflict}
use freighter.Types.Index.{Semver, CrateVersion, Publish, SparseEntries, CompletedPublication}
use freighter.Types.Convert.{release_of_publish}
use freighter.Storage.Metadata.{MetadataStorage, IsStorage}
use freighter.FsIndex.Path.Names.{path-injective}
use freighter.FsIndex.Meta.{Json}
use freighter.FsIndex.Meta.RoundTrip.{IsJson}
use freighter.FsIndex.Provider.{
  access_crate, has_version, already_exists, deserialized, put_index_file, get_sparse_entry,
  existing_versions, published_file, publish,
}
use freighter.FsIndex.Provider.Writes.{
  contents-put_index_file, pull-put_index_file_ne, pull-put_index_file_failed,
}

-- The versions of a crate, as `get_sparse_entry` lists them; none if there is no index file.
abbrev pub listed :
    {S : Semver} → Result IndexError (SparseEntries S) → Result IndexError (List (CrateVersion S))
listed (ok versions) = ok versions.entries
listed (err IndexError.not_found) = ok []
listed (err (IndexError.conflict m)) = err (IndexError.conflict m)
listed (err IndexError.crate_name_not_allowed) = err IndexError.crate_name_not_allowed
listed (err (IndexError.service_error e)) = err (IndexError.service_error e)

-- Names that have one path are one name, up to case.
path_of_name :
    (m n path : Text)
    → access_crate m ≡ ok path
    → access_crate n ≡ ok path
    → to_ascii_lowercase m ≡ to_ascii_lowercase n
unfolding access_crate
path_of_name m n path h k =
    path-injective (to_ascii_lowercase m) (to_ascii_lowercase n) path (ground arith) (ground arith)

module _ {S : Semver} (J : Json S) (F : MetadataStorage) where
  -- What a `publish` that succeeds has done.
  publish_parts :
      {W : Type 0} (p : Publish S) (cksum : Bytes) (end_step : Act W IndexError (Unit {0}))
      (s s' : F.State) (w w' : W) (r : CompletedPublication)
      → publish J F p cksum end_step (s, w) ≡ (ok r, (s', w'))
      → (path : Text) × (old : List (CrateVersion S)) × (access_crate p.name ≡ ok path)
        × (existing_versions J F p path s ≡ ok old)
        × (end_step w ≡ (ok tt, w'))
        × (put_index_file J F path (old ++ release_of_publish p cksum ∷ []) p s ≡ (ok tt, s'))
  unfolding publish published_file release_of_publish
  publish_parts p cksum end_step s s' w w' r h = elim (Result-cases (access_crate p.name)) [
    | inr (e, refused) ↦ absurd (ground arith)
    | inl (path, allowed) ↦ elim (Result-cases (existing_versions J F p path s)) [
      | inr (e, failed) ↦ absurd (ground arith)
      | inl (old, read) ↦ (path, old, allowed, read, ground arith, ground arith)
    ]
  ]

  existing_listed :
      (p : Publish S) (path : Text) (s : F.State) (old : List (CrateVersion S))
      → access_crate p.name ≡ ok path
      → existing_versions J F p path s ≡ ok old
      → (listed (get_sparse_entry J F p.name s) ≡ ok old) × (has_version p.vers old ≡ false)
  unfolding existing_versions get_sparse_entry
  existing_listed p path s old allowed read = (ground arith, ground arith)

  module _ (json : IsJson J) (files : IsStorage F) where
    -- With JSON and a storage that keep their promises, a publish that succeeds has run `end_step`
    -- with success; before it the crate did not list the version, and after it the crate lists the
    -- new release behind what it listed before.
    pub publish_ok :
        {W : Type 0} (p : Publish S) (cksum : Bytes) (end_step : Act W IndexError (Unit {0}))
        (s s' : F.State) (w w' : W) (r : CompletedPublication)
        → publish J F p cksum end_step (s, w) ≡ (ok r, (s', w'))
        → (old : List (CrateVersion S)) × (listed (get_sparse_entry J F p.name s) ≡ ok old)
          × (has_version p.vers old ≡ false)
          × (end_step w ≡ (ok tt, w'))
          × (listed (get_sparse_entry J F p.name s') ≡ ok (old ++ release_of_publish p cksum ∷ []))
    unfolding get_sparse_entry
    publish_ok p cksum end_step s s' w w' r h =
        let (path, old, allowed, read, stepped, put) =
          publish_parts p cksum end_step s s' w w' r h in
        let before = existing_listed p path s old allowed read in
        let new = old ++ release_of_publish p cksum ∷ [] in
        let after = contents-put_index_file J F json files path new p s (ap (λ x. x.0) put) in
        (old, before.0, before.1, stepped, ground (arith, after, put))

  -- With a storage that keeps its promises, a publish that fails, at whichever step, leaves every
  -- index file as it was.
  pub publish_failed :
      {W : Type 0} (p : Publish S) (cksum : Bytes) (end_step : Act W IndexError (Unit {0}))
      (s s' : F.State) (w w' : W) (e : IndexError) (path : Text)
      → IsStorage F
      → publish J F p cksum end_step (s, w) ≡ (err e, (s', w'))
      → F.pull_file path s' ≡ F.pull_file path s
  unfolding publish
  publish_failed p cksum end_step s s' w w' e path files h =
      elim (Result-cases (published_file J F p cksum s)) [
        | inr (f, refused) ↦ ground arith
        | inl ((own, versions), ready) ↦ elim (Result-cases (end_step w).0) [
          | inr (f, failed) ↦ ground arith
          | inl (_, stepped) ↦
              let put = put_index_file J F own versions p s in
              let same : put.1 ≡ s' = ground arith in
              elim (Result-cases put.0) [
                | inl (_, done) ↦ absurd (ground arith)
                | inr (f, unwritten) ↦
                    rw (← same)
                      (pull-put_index_file_failed J F files own path versions p s f unwritten)
              ]
        ]
      ]

  -- A publish of a version that the crate lists is refused with a conflict; no file changes, and
  -- `end_step` is not run.
  pub publish_conflict :
      {W : Type 0} (p : Publish S) (cksum : Bytes) (end_step : Act W IndexError (Unit {0}))
      (s : F.State) (w : W) (entries : SparseEntries S)
      → get_sparse_entry J F p.name s ≡ ok entries
      → has_version p.vers entries.entries ≡ true
      → publish J F p cksum end_step (s, w) ≡ (err (conflict (already_exists p)), (s, w))
  unfolding publish published_file existing_versions get_sparse_entry release_of_publish
  publish_conflict p cksum end_step s w entries there has =
      elim (Result-cases (access_crate p.name)) [
        | inr (e, refused) ↦ absurd (ground arith)
        | inl (path, allowed) ↦ elim (Result-cases (deserialized J F path s)) [
          | inr (e, failed) ↦ absurd (ground arith)
          | inl (both, read) ↦ ground arith
        ]
      ]

  -- The file at a path that is not the crate's own is the same after `publish`.
  pull_same :
      {W : Type 0} (p : Publish S) (cksum : Bytes) (end_step : Act W IndexError (Unit {0}))
      (s : F.State) (w : W) (path : Text)
      → IsStorage F
      → ((own : Text) → access_crate p.name ≡ ok own → own ≢ path)
      → F.pull_file path (publish J F p cksum end_step (s, w)).1.0 ≡ F.pull_file path s
  unfolding publish published_file release_of_publish
  pull_same p cksum end_step s w path files other = elim (Result-cases (access_crate p.name)) [
    | inr (e, refused) ↦ ground arith
    | inl (own, allowed) ↦ elim (Result-cases (existing_versions J F p own s)) [
      | inr (e, failed) ↦ ground arith
      | inl (old, read) ↦ ground (
        arith,
        pull-put_index_file_ne J F files own path (old ++ release_of_publish p cksum ∷ []) p s
            (other own allowed),
      )
    ]
  ]

  -- With a storage that keeps its promises, a publish does not change, whatever its outcome, what
  -- a crate lists whose name differs in more than the case of letters.
  pub publish_other :
      {W : Type 0} (p : Publish S) (cksum : Bytes) (end_step : Act W IndexError (Unit {0}))
      (s : F.State) (w : W) (name : Text)
      → IsStorage F
      → to_ascii_lowercase p.name ≢ to_ascii_lowercase name
      → get_sparse_entry J F name (publish J F p cksum end_step (s, w)).1.0
        ≡ get_sparse_entry J F name s
  unfolding get_sparse_entry deserialized
  publish_other p cksum end_step s w name files ne = elim (Result-cases (access_crate name)) [
    | inr (e, refused) ↦ rw (refused, get_sparse_entry)
    | inl (path, allowed) ↦
        let other : (own : Text) → access_crate p.name ≡ ok own → own ≢ path =
          λ own mine same. ne (path_of_name p.name name path (mine ∙ ap ok same) allowed) in
        rw (allowed, get_sparse_entry)
          (rw (pull_same p cksum end_step s w path files other, deserialized))
  ]
