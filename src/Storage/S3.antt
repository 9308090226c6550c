-- ===== src/Storage/S3.antt =====
-- `S3StorageProvider` of crates/freighter-storage/src/s3_client.rs, over the S3 client.
pub mod Objects
pub mod Health
use freighter.Base.{
  ℕ, zero, suc, Option, none, some, List, [], ◌∷◌, ◌++◌, Text, text_eq, text_beq, codes, Bytes,
  Result, ok, err, length, map_err, if◌then◌else◌,
}
use freighter.Base.Acts.{Act}
use freighter.Base.Dict.{Dict}
use freighter.Types.Error.{AnyError, context, StorageError, any_of_storage}
use freighter.Storage.Metadata.{Metadata, default_metadata, FileResponse, MetadataStorage}
use freighter.Storage.Crates.{StorageProvider}

-- What a request for an object comes back with: the body may still fail to arrive.
pub record Object : Type 0 where
  pub last_modified : Option ℕ
  pub body : Result AnyError Bytes

pub data GetError : Type 0 where
  no_such_key : GetError
  other : AnyError → GetError

-- What is set on a request that puts an object.
pub record PutRequest : Type 0 where
  pub content_length : Option ℕ
  pub content_type : Option Text
  pub cache_control : Option Text
  pub checksum_sha256 : Option Text
  pub metadata : Dict Text Text

-- `aws_sdk_s3` at one bucket, and the encodings `base64` and `hex`.
pub record Client : Type 1 where
  pub State : Type 0
  pub get_object : Text → State → Result GetError Object
  pub put_object : Text → Bytes → PutRequest → Act State AnyError (Unit {0})
  pub delete_object : Text → Act State AnyError (Unit {0})
  pub list_objects : Text → State → Result AnyError (List Text)
  pub base64 : Bytes → Text
  pub hex : Bytes → Text

-- `Result::or`
abbrev or_else : {E A : Type 0} → Result E A → Result E A → Result E A
or_else (ok a) r = ok a
or_else (err e) r = r

module _ (C : Client) where
  unfoldable pub pull_object : Text → C.State → Result StorageError FileResponse
  pull_object path s = elim (C.get_object path s) [
    | err GetError.no_such_key ↦ err StorageError.not_found
    | err (GetError.other e) ↦
        err (StorageError.service_error (context (codes "Storage response error") e))
    | ok resp ↦ elim resp.body [
      | err e ↦ err (StorageError.service_error (context (codes "Error while retrieving body") e))
      | ok bytes ↦ ok (record { last_modified = resp.last_modified; «data» = bytes })
    ]
  ]

  -- The fields of `Metadata` that a request carries.
  abbrev pub put_request : Metadata → PutRequest
  put_request meta = record {
    content_length = meta.content_length;
    content_type = meta.content_type;
    cache_control = meta.cache_control;
    checksum_sha256 = elim meta.sha256 [ none ↦ none | some sha ↦ some (C.base64 sha) ];
    metadata = meta.kv;
  }

  unfoldable pub put_object : Text → Bytes → Metadata → Act C.State StorageError (Unit {0})
  put_object path bytes meta s =
      let (r, s') = C.put_object path bytes (put_request meta) s in
      (map_err (λ e. StorageError.service_error (context (codes "Failed to put file") e)) r, s')

  unfoldable pub delete_object : Text → Act C.State StorageError (Unit {0})
  delete_object path s =
      let (r, s') = C.delete_object path s in
      (map_err (λ e. StorageError.service_error (context (codes "Failed to delete file") e)) r, s')

  -- The loop of `healthcheck`, with the rounds that are left.
  unfoldable pub check_rounds : ℕ → Text → Act C.State AnyError (Unit {0})
  check_rounds zero path s =
      (err (codes "successfully put object but saw NotFound on pull 3 times" ∷ []), s)
  check_rounds (suc n) path s =
      let (put, s') =
        put_object path (codes "ok")
          (record default_metadata { content_type = some (codes "text/plain") }) s in
      let rest = check_rounds n path s' in
      elim (pull_object path s) [
        | ok obj ↦
            if text_beq obj.«data» (codes "ok")
            then (ok tt, s)
            else (err (codes "wrong data" ∷ []), s)
        | err StorageError.not_found ↦ elim put [
          | ok _ ↦ rest
          | err e ↦ (err (any_of_storage e), s')
        ]
        | err (StorageError.service_error e) ↦
            (err (any_of_storage (StorageError.service_error e)), s)
      ]

  unfoldable pub check_bucket : Text → Act C.State AnyError (Unit {0})
  check_bucket path = check_rounds 3 path

  unfoldable pub list_prefix : Text → C.State → Result StorageError (List Text)
  list_prefix prefix s =
      map_err (λ e. StorageError.service_error (context (codes "failed to list all files") e))
        (C.list_objects prefix s)

  -- The path that crates were once stored under, and the one with the digest.
  unfoldable pub construct_paths : Text → Text → Bytes → Text × Text
  construct_paths name version checksum = (
    codes "crates/" ++ (name ++ (codes "-" ++ (version ++ codes ".crate"))),
    codes "crates/"
        ++ (name ++ (codes "-" ++ (version ++ (codes "_" ++ (C.hex checksum ++ codes ".tar.gz"))))),
  )

  unfoldable pub pull_crate : Text → Text → Bytes → C.State → Result StorageError FileResponse
  pull_crate name version checksum s =
      let (old_path, new_path) = construct_paths name version checksum in
      elim (pull_object new_path s) [
        | ok res ↦ ok res
        | err first_err ↦ elim (pull_object old_path s) [ ok res ↦ ok res | err _ ↦ err first_err ]
      ]

  unfoldable pub put_crate : Text → Text → Bytes → Bytes → Act C.State StorageError (Unit {0})
  put_crate name version bytes checksum =
      put_object (construct_paths name version checksum).1 bytes (record {
        content_type = some (codes "application/x-tar");
        content_length = some (length bytes);
        cache_control = some (codes "public,immutable");
        content_encoding = none;
        sha256 = some checksum;
        kv = [];
      })

  -- The two requests run side by side; here the first comes first.
  unfoldable pub delete_crate : Text → Text → Bytes → Act C.State StorageError (Unit {0})
  delete_crate name version checksum s =
      let (old_path, new_path) = construct_paths name version checksum in
      let (res1, s1) = delete_object new_path s in
      let (res2, s2) = delete_object old_path s1 in (or_else res1 res2, s2)

  -- `impl MetadataStorageProvider for S3StorageProvider`
  abbrev pub s3_files : MetadataStorage
  s3_files = record {
    State = C.State;
    pull_file = pull_object;
    put_file = put_object;
    delete_file = delete_object;
    list_prefix = list_prefix;
    healthcheck = check_bucket (codes ".healthcheck-meta");
  }

  -- `impl StorageProvider for S3StorageProvider`
  abbrev pub s3_crates : StorageProvider
  s3_crates = record {
    State = C.State;
    pull_crate = λ name version checksum s. (pull_crate name version checksum s, s);
    put_crate = put_crate;
    delete_crate = delete_crate;
    healthcheck = check_bucket (codes ".healthcheck-data");
  }
