-- ===== src/FsIndex/Provider/Writes.antt =====
-- What an index file holds after a write of `FsIndexProvider`.
use freighter.Base.{
  ◌≡◌, ◌≢◌, Option, some, List, Text, Bytes, Result, ok, err, Result-cases, inl, inr, arith,
}
use freighter.Types.Error.{IndexError}
use freighter.Types.Index.{Semver, CrateVersion, Publish, SparseEntries}
use freighter.Storage.Metadata.{Metadata, MetadataStorage, IsStorage}
use freighter.FsIndex.Meta.{Json, serialize_data}
use freighter.FsIndex.Meta.RoundTrip.{IsJson, deserialize-serialize}
use freighter.FsIndex.Provider.{deserialized, put_mapped, replace, put_index_file}

-- The versions and the request in an index file, without the time of its last change.
abbrev pub contents :
    {S : Semver}
    → Result IndexError (SparseEntries S × Option (Publish S))
    → Result IndexError (List (CrateVersion S) × Option (Publish S))
contents (ok (versions, publish)) = ok (versions.entries, publish)
contents (err e) = err e

module _ {S : Semver} (J : Json S) (F : MetadataStorage) (json : IsJson J)
    (files : IsStorage F) where
  contents-put :
      (path : Text) (vs : List (CrateVersion S)) (publish : Option (Publish S)) (bytes : Bytes)
      (meta : Metadata) (s : F.State)
      → serialize_data J vs publish ≡ ok bytes
      → (put_mapped J F path bytes meta s).0 ≡ ok tt
      → contents (deserialized J F path (put_mapped J F path bytes meta s).1) ≡ ok (vs, publish)
  unfolding deserialized
  contents-put path vs publish bytes meta s written done =
      let (time, e) = files.pull-put_self path bytes meta s (ground arith) in
      ground (arith, e, deserialize-serialize J json vs publish bytes written)

  -- A successful `replace` or `put_index_file` leaves what it was given.
  pub contents-replace :
      (path : Text) (vs : List (CrateVersion S)) (publish : Option (Publish S)) (s : F.State)
      → (replace J F path vs publish s).0 ≡ ok tt
      → contents (deserialized J F path (replace J F path vs publish s).1) ≡ ok (vs, publish)
  unfolding replace
  contents-replace path vs publish s done = elim (Result-cases (serialize_data J vs publish)) [
    | inl (bytes, written) ↦
        rw (written, replace)
          (contents-put path vs publish bytes _ s written (rw (written, replace) at done))
    | inr (e, failed) ↦ absurd (ground arith)
  ]

  pub contents-put_index_file :
      (path : Text) (vs : List (CrateVersion S)) (publish : Publish S) (s : F.State)
      → (put_index_file J F path vs publish s).0 ≡ ok tt
      → contents (deserialized J F path (put_index_file J F path vs publish s).1)
        ≡ ok (vs, some publish)
  unfolding put_index_file
  contents-put_index_file path vs publish s done =
      elim (Result-cases (serialize_data J vs (some publish))) [
        | inl (bytes, written) ↦
            rw (written, put_index_file)
              (contents-put path vs (some publish) bytes _ s written
                (rw (written, put_index_file) at done))
        | inr (e, failed) ↦ absurd (ground arith)
      ]

module _ {S : Semver} (J : Json S) (F : MetadataStorage) (files : IsStorage F) where
  -- A write leaves the files at other paths as they are.
  pull-replace_ne :
      (path other : Text) (vs : List (CrateVersion S)) (publish : Option (Publish S)) (s : F.State)
      → path ≢ other
      → F.pull_file other (replace J F path vs publish s).1 ≡ F.pull_file other s
  unfolding replace
  pull-replace_ne path other vs publish s ne = elim (Result-cases (serialize_data J vs publish)) [
    | inl (bytes, written) ↦ rw (written, replace) (files.pull-put_ne path other bytes _ s ne)
    | inr (e, failed) ↦ rw (failed, replace)
  ]

  pub pull-put_index_file_ne :
      (path other : Text) (vs : List (CrateVersion S)) (publish : Publish S) (s : F.State)
      → path ≢ other
      → F.pull_file other (put_index_file J F path vs publish s).1 ≡ F.pull_file other s
  unfolding put_index_file
  pull-put_index_file_ne path other vs publish s ne =
      elim (Result-cases (serialize_data J vs (some publish))) [
        | inl (bytes, written) ↦
            rw (written, put_index_file) (files.pull-put_ne path other bytes _ s ne)
        | inr (e, failed) ↦ rw (failed, put_index_file)
      ]

  pull-put_mapped_failed :
      (path other : Text) (bytes : Bytes) (meta : Metadata) (s : F.State) (e : IndexError)
      → (put_mapped J F path bytes meta s).0 ≡ err e
      → F.pull_file other (put_mapped J F path bytes meta s).1 ≡ F.pull_file other s
  pull-put_mapped_failed path other bytes meta s e failed =
      elim (Result-cases (F.put_file path bytes meta s).0) [
        | inl (_, done) ↦ absurd (ground arith)
        | inr (f, e') ↦ files.pull-put_failed path other bytes meta s f e'
      ]

  -- A failed write leaves every file as it is.
  pull-replace_failed :
      (path other : Text) (vs : List (CrateVersion S)) (publish : Option (Publish S)) (s : F.State)
      (e : IndexError)
      → (replace J F path vs publish s).0 ≡ err e
      → F.pull_file other (replace J F path vs publish s).1 ≡ F.pull_file other s
  unfolding replace
  pull-replace_failed path other vs publish s e failed =
      elim (Result-cases (serialize_data J vs publish)) [
        | inl (bytes, written) ↦
            rw (written, replace)
              (pull-put_mapped_failed path other bytes _ s e (rw (written, replace) at failed))
        | inr (f, unwritten) ↦ rw (unwritten, replace)
      ]

  pub pull-put_index_file_failed :
      (path other : Text) (vs : List (CrateVersion S)) (publish : Publish S) (s : F.State)
      (e : IndexError)
      → (put_index_file J F path vs publish s).0 ≡ err e
      → F.pull_file other (put_index_file J F path vs publish s).1 ≡ F.pull_file other s
  unfolding put_index_file
  pull-put_index_file_failed path other vs publish s e failed =
      elim (Result-cases (serialize_data J vs (some publish))) [
        | inl (bytes, written) ↦
            rw (written, put_index_file)
              (pull-put_mapped_failed path other bytes _ s e
                (rw (written, put_index_file) at failed))
        | inr (f, unwritten) ↦ rw (unwritten, put_index_file)
      ]
