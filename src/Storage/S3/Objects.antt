-- ===== src/Storage/S3/Objects.antt =====
-- Tarballs in S3 (crates/freighter-storage/src/s3_client.rs): what is pulled after they were put or
-- deleted, whichever requests fail.
use freighter.Base.{ℕ, ◌≡◌, ◌⊎◌, ok, err, Option, none, some, Text, Bytes, Result}
use freighter.Types.Error.{AnyError, StorageError}
use freighter.Storage.Metadata.{FileResponse}
use freighter.Storage.S3.{
  Client, Object, GetError, PutRequest, no_such_key, pull_object, put_object, delete_object,
  pull_crate, construct_paths,
}

-- A request for an object that fails, at once or while its body arrives.
abbrev pub Faulty : Result GetError Object → Type 0
Faulty r =
    ((e : AnyError) × (r ≡ err (GetError.other e)))
    ⊎ ((time : Option ℕ) × (e : AnyError) × (r
          ≡ ok (record { last_modified = time; body = err e })))

-- What is relied on of a bucket. `holds` is the object under a key, which a request for it gives
-- (reads are consistent with writes) unless the request fails. Nothing is known of what a failed
-- request to put or delete an object has done to it.
pub record IsBucket (C : Client) : Type 0 where
  pub holds : Text → C.State → Option Bytes
  pub get_there :
      (path : Text) (bytes : Bytes) (s : C.State)
      → holds path s ≡ some bytes
      → ((time : Option ℕ) × (C.get_object path s
            ≡ ok (record { last_modified = time; body = ok bytes })))
        ⊎ Faulty (C.get_object path s)
  pub get_absent :
      (path : Text) (s : C.State)
      → holds path s ≡ none
      → (C.get_object path s ≡ err no_such_key) ⊎ Faulty (C.get_object path s)
  pub put_there :
      (path : Text) (bytes : Bytes) (r : PutRequest) (s : C.State)
      → (C.put_object path bytes r s).0 ≡ ok tt
      → holds path (C.put_object path bytes r s).1 ≡ some bytes
  pub deleted_absent :
      (path : Text) (s : C.State)
      → (C.delete_object path s).0 ≡ ok tt
      → holds path (C.delete_object path s).1 ≡ none
  pub absent_stays :
      (path other : Text) (s : C.State)
      → holds other s ≡ none
      → holds other (C.delete_object path s).1 ≡ none

module _ (C : Client) (bucket : IsBucket C) where
  abbrev Fault : Result StorageError FileResponse → Type 0
  Fault r = (e : AnyError) × (r ≡ err (StorageError.service_error e))

  abbrev Gives : Bytes → Result StorageError FileResponse → Type 0
  Gives bytes r = (time : Option ℕ) × (r ≡ ok (record { last_modified = time; «data» = bytes }))

  module _ (name version : Text) (bytes checksum : Bytes) where
    -- After a put: the tarball, or the request for it fails, and so does the pull unless the path
    -- of former times answers.
    abbrev pub Stored : C.State → Type 0
    Stored s =
        let (old_path, new_path) = construct_paths C name version checksum in
        let pulled = pull_crate C name version checksum s in
        Gives bytes pulled
        ⊎ (Fault (pull_object C new_path s)
            × (Fault pulled
                ⊎ ((r : FileResponse) × (pull_object C old_path s ≡ ok r) × (pulled ≡ ok r))))

    -- After a deletion: nothing, under either path.
    abbrev pub Gone : C.State → Type 0
    Gone s =
        (pull_crate C name version checksum s ≡ err StorageError.not_found)
        ⊎ Fault (pull_crate C name version checksum s)

    abbrev pub first : C.State → Result AnyError (Unit {0}) × C.State
    first = C.delete_object (construct_paths C name version checksum).1

    abbrev pub second : C.State → Result AnyError (Unit {0}) × C.State
    second s = C.delete_object (construct_paths C name version checksum).0 (first s).1
