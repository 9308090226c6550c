-- ===== src/FsIndex/Provider.antt =====
-- `FsIndexProvider` of crates/freighter-fs-index/src/lib.rs, with the `LockedMetaFile` of
-- file_locks.rs. An operation holds the lock of its crate from its first access of the file to its
-- last one (Locks.antt has the locks), so it is one step on the file.
pub mod Writes
pub mod Publishing
pub mod Yanking
pub mod Search
pub mod Listing
pub mod Contract
use freighter.Base.{
  Bool, true, false, Option, none, some, List, [], ◌∷◌, ◌++◌, Text, codes, Bytes, Result, ok, err,
  ◌>>=◌, ok_or, map_err, if◌then◌else◌, length, any, to_ascii_lowercase,
}
use freighter.Base.Acts.{Act, continue}
use freighter.Types.Error.{
  AnyError, StorageError, IndexError, conflict, crate_name_not_allowed, index_of_storage,
  any_of_storage,
}
use freighter.Types.Index.{
  Semver, CrateVersion, Publish, SparseEntries, CrateVersionExists, CompletedPublication,
}
use freighter.Types.Convert.{release_of_publish}
use freighter.Storage.Metadata.{Metadata, default_metadata, MetadataStorage}
use freighter.FsIndex.Path.{crate_meta_file_rel_path}
use freighter.FsIndex.Meta.{Json, deserialize_data, serialize_data}

-- `access_crate`: the path that is locked.
unfoldable pub access_crate : Text → Result IndexError Text
access_crate crate_name =
    ok_or (crate_meta_file_rel_path (to_ascii_lowercase crate_name)) crate_name_not_allowed

module _ {S : Semver} where
  -- `iter().rfind(|v| &v.vers == version)`
  unfoldable pub rfind : S.Version → List (CrateVersion S) → Option (CrateVersion S)
  rfind version [] = none
  rfind version (v ∷ vs) = elim (rfind version vs) [
    | some found ↦ some found
    | none ↦ if S.version_eq.beq v.vers version then some v else none
  ]

  -- `iter_mut().rfind(..)` and the assignment to `yanked`; `none` if there is no such version.
  unfoldable pub set_yanked :
      S.Version → Bool → List (CrateVersion S) → Option (List (CrateVersion S))
  set_yanked version yank [] = none
  set_yanked version yank (v ∷ vs) = elim (set_yanked version yank vs) [
    | some vs' ↦ some (v ∷ vs')
    | none ↦
        if S.version_eq.beq v.vers version then some (record v { yanked = yank } ∷ vs) else none
  ]

  abbrev pub has_version : S.Version → List (CrateVersion S) → Bool
  has_version version = any (λ v. S.version_eq.beq v.vers version)

  -- The message of the conflict.
  abbrev pub already_exists : Publish S → Text
  already_exists p = p.name ++ (codes "-" ++ (S.version_to_string p.vers ++ codes " aleady exists"))

module _ {S : Semver} (J : Json S) (F : MetadataStorage) where
  -- `LockedMetaFile::deserialized`
  unfoldable pub deserialized :
      Text → F.State → Result IndexError (SparseEntries S × Option (Publish S))
  deserialized path s = do
    res ← map_err index_of_storage (F.pull_file path s)
    (entries, publish) ← deserialize_data J res.«data»
    ok (record { entries = entries; last_modified = res.last_modified }, publish)

  -- `put_file` behind its `map_err`.
  abbrev pub put_mapped : Text → Bytes → Metadata → Act F.State IndexError (Unit {0})
  put_mapped path bytes meta s =
      let (r, s') = F.put_file path bytes meta s in
      (map_err (λ e. IndexError.service_error (any_of_storage e)) r, s')

  -- `LockedMetaFile::replace`
  unfoldable pub replace :
      Text → List (CrateVersion S) → Option (Publish S) → Act F.State IndexError (Unit {0})
  replace path versions publish s = elim (serialize_data J versions publish) [
    | err e ↦ (err e, s)
    | ok bytes ↦
        put_mapped path bytes
          (record default_metadata {
            content_type = some (codes "application/json");
            content_length = some (length bytes);
          })
          s
  ]

  -- `LockedMetaFile::put_index_file`
  unfoldable pub put_index_file :
      Text → List (CrateVersion S) → Publish S → Act F.State IndexError (Unit {0})
  put_index_file path versions latest s = elim (serialize_data J versions (some latest)) [
    | err e ↦ (err e, s)
    | ok bytes ↦
        put_mapped path bytes
          (record default_metadata { content_type = some (codes "application/json") }) s
  ]

  unfoldable pub get_sparse_entry : Text → F.State → Result IndexError (SparseEntries S)
  get_sparse_entry crate_name s = do
    path ← access_crate crate_name
    (versions, _) ← deserialized path s
    ok versions

  unfoldable pub confirm_existence :
      Text → S.Version → F.State → Result IndexError CrateVersionExists
  confirm_existence crate_name version s = do
    path ← access_crate crate_name
    (versions, _) ← deserialized path s
    e ← ok_or (rfind version versions.entries) IndexError.not_found
    ok (record { yanked = e.yanked; tarball_checksum = e.cksum })

  -- What `yank_inner` writes: the path, the versions and the last request.
  unfoldable pub yanked_file :
      Text
      → S.Version
      → Bool
      → F.State
      → Result IndexError (Text × List (CrateVersion S) × Option (Publish S))
  yanked_file crate_name version yank s = do
    path ← access_crate crate_name
    (releases, publish) ← deserialized path s
    entries ← ok_or (set_yanked version yank releases.entries) IndexError.not_found
    ok (path, entries, publish)

  unfoldable pub yank_inner : Text → S.Version → Bool → Act F.State IndexError (Unit {0})
  yank_inner crate_name version yank s =
      continue (yanked_file crate_name version yank s) (λ file. replace file.0 file.1 file.2) s

  unfoldable pub yank_crate : Text → S.Version → Act F.State IndexError (Unit {0})
  yank_crate crate_name version = yank_inner crate_name version true

  unfoldable pub unyank_crate : Text → S.Version → Act F.State IndexError (Unit {0})
  unyank_crate crate_name version = yank_inner crate_name version false

  -- The versions that are there, before `publish` adds its own.
  unfoldable pub existing_versions :
      Publish S → Text → F.State → Result IndexError (List (CrateVersion S))
  existing_versions publish path s = elim (deserialized path s) [
    | ok (existing, _) ↦
        if has_version publish.vers existing.entries
        then err (conflict (already_exists publish))
        else ok existing.entries
    | err IndexError.not_found ↦ ok []
    | err (IndexError.conflict m) ↦ err (IndexError.conflict m)
    | err IndexError.crate_name_not_allowed ↦ err IndexError.crate_name_not_allowed
    | err (IndexError.service_error e) ↦ err (IndexError.service_error e)
  ]

  -- The path and the versions with the new release.
  unfoldable pub published_file :
      Publish S → Bytes → F.State → Result IndexError (Text × List (CrateVersion S))
  published_file publish cksum s = do
    let release = release_of_publish publish cksum
    path ← access_crate release.name
    versions ← existing_versions publish path s
    ok (path, versions ++ release ∷ [])

  -- `publish`. `end_step` acts on a world of its own (the tarball storage).
  unfoldable pub publish :
      {W : Type 0}
      → Publish S
      → Bytes
      → Act W IndexError (Unit {0})
      → Act (F.State × W) IndexError CompletedPublication
  publish p cksum end_step (s, w) = elim (published_file p cksum s) [
    | err e ↦ (err e, (s, w))
    | ok (path, versions) ↦
        let (stepped, w') = end_step w in
        elim stepped [
          | err e ↦ (err e, (s, w'))
          | ok _ ↦
              let (put, s') = put_index_file path versions p s in
              elim put [
                | err e ↦ (err e, (s', w'))
                | ok _ ↦ (ok (record { warnings = none }), (s', w'))
              ]
        ]
  ]
