-- ===== src/Storage/Metadata.antt =====
-- `MetadataStorageProvider` of crates/freighter-api-types/src/storage/mod.rs, as an interface.
use freighter.Base.{ℕ, ◌≡◌, ◌≢◌, Option, none, List, [], Text, Bytes, Result, ok, err}
use freighter.Base.Acts.{Act}
use freighter.Base.Dict.{Dict}
use freighter.Types.Error.{AnyError, StorageError}

pub record Metadata : Type 0 where
  pub content_type : Option Text
  pub content_length : Option ℕ
  pub cache_control : Option Text
  pub content_encoding : Option Text
  pub sha256 : Option Bytes
  pub kv : Dict Text Text

-- `Metadata::default`
abbrev pub default_metadata : Metadata
default_metadata = record {
  content_type = none;
  content_length = none;
  cache_control = none;
  content_encoding = none;
  sha256 = none;
  kv = [];
}

-- A time stamp is a number that the program only passes on.
pub record FileResponse : Type 0 where
  pub last_modified : Option ℕ
  pub «data» : Bytes

-- The trait. `State` is all that a call can change.
pub record MetadataStorage : Type 1 where
  pub State : Type 0
  pub pull_file : Text → State → Result StorageError FileResponse
  pub put_file : Text → Bytes → Metadata → Act State StorageError (Unit {0})
  pub delete_file : Text → Act State StorageError (Unit {0})
  pub list_prefix : Text → State → Result StorageError (List Text)
  pub healthcheck : Act State AnyError (Unit {0})

-- What a client relies on: a file that was put is the file that is pulled, a failed call changes
-- no file, and files do not interfere.
pub record IsStorage (F : MetadataStorage) : Type 0 where
  pub pull-put_self :
      (path : Text) (bytes : Bytes) (meta : Metadata) (s : F.State)
      → (F.put_file path bytes meta s).0 ≡ ok tt
      → (time : Option ℕ) × (F.pull_file path (F.put_file path bytes meta s).1
          ≡ ok (record { last_modified = time; «data» = bytes }))
  pub pull-put_ne :
      (path other : Text) (bytes : Bytes) (meta : Metadata) (s : F.State)
      → path ≢ other
      → F.pull_file other (F.put_file path bytes meta s).1 ≡ F.pull_file other s
  pub pull-put_failed :
      (path other : Text) (bytes : Bytes) (meta : Metadata) (s : F.State) (e : StorageError)
      → (F.put_file path bytes meta s).0 ≡ err e
      → F.pull_file other (F.put_file path bytes meta s).1 ≡ F.pull_file other s
