-- ===== src/Tests/Service.antt =====
-- Examples of the server: a publish behind an index that accepts and one that refuses.
use freighter.Base.{
  ◌≡◌, ◌⊎◌, refl, none, some, List, [], ◌∷◌, Text, text_eq, text_beq, Bytes, codes, ok, err, true,
  false, to_lower, ◌+◌,
}
use freighter.Base.Dict
use freighter.Types.Error.{Rejection, StorageError, index_response, conflict}
use freighter.Types.Index.{Publish}
use freighter.Types.IndexProvider.{IndexProvider, RunsEndStep}
use freighter.Storage.Crates.{StorageProvider}
use freighter.Types.Convert.{release_of_publish}
use freighter.FsIndex.Provider
use freighter.FsIndex.Provider.{
  published_file, existing_versions, access_crate, deserialized, put_index_file, already_exists,
}
use freighter.FsIndex.Path.{crate_meta_file_rel_path, folder, is_valid_crate_file_name_char}
use freighter.FsIndex.Meta.{
  deserialize_data, read_lines, lines, split_lines, serialize_data, write_versions, write_publish,
}
use freighter.FsIndex.Provider.Contract.{fs_index, fs_index-RunsEndStep}
use freighter.Auth.Provider.{AuthProvider, HeaderMap}
use freighter.Auth.Backends.{yes_provider}
use freighter.Server.Service.{Platform, Service, ServiceConfig, required_token, auth_token_missing}
use freighter.Server.Body.{parse_body, publish_buffer}
use freighter.Server.Publish.{publish_crate, publish, store_tarball}
use freighter.Server.Publish.Outcome.{
  put_tarball, delete_tarball, index_publish, index_accepts, index_refuses, publish_gate,
}
use freighter.Tests.Files.{numbers, files, codec, bare_publish}
use freighter.Tests.Paths.{serde}
use freighter.Tests.Index.{after}

abbrev pub auth : AuthProvider
auth = yes_provider (λ n seed. (codes "token", seed + 1))

abbrev pub index : IndexProvider numbers
index = fs_index codec files (λ s. 0) (λ rs. rs)

index-RunsEndStep : RunsEndStep index
index-RunsEndStep = fs_index-RunsEndStep codec files (λ s. 0) (λ rs. rs)

fs_index-RunsEndStep_example : RunsEndStep index
fs_index-RunsEndStep_example = fs_index-RunsEndStep codec files (λ s. 0) (λ rs. rs)

-- A store of the tarballs themselves.
abbrev pub tarballs : StorageProvider
tarballs = record {
  State = List Bytes;
  pull_crate = λ name version cksum s. (err StorageError.not_found, s);
  put_crate = λ name version bytes cksum s. (ok tt, bytes ∷ s);
  delete_crate = λ name version cksum s. (ok tt, elim s [ [] ↦ [] | _ ∷ t ↦ t ]);
  healthcheck = λ s. (ok tt, s);
}

abbrev pub platform : Platform numbers
platform = record {
  publish_from_slice = codec.publish_of_json;
  sha256 = λ bytes. [];
  error_id = λ e. [];
}

abbrev pub settings : ServiceConfig
settings = record {
  download_endpoint = codes "localhost";
  api_endpoint = codes "localhost";
  allow_registration = false;
  auth_required = true;
  crate_size_limit = 1024;
}

abbrev pub headers : HeaderMap
headers = record {
  values = (codes "authorization", codes "token") ∷ [];
  to_str = λ bytes. some bytes;
}

abbrev pub service : index.State → Service auth index tarballs
service s = record { config = settings; auth = 0; index = s; storage = [] }

abbrev first : Publish numbers
first = bare_publish serde 1

abbrev tarball : Bytes
tarball = 9 ∷ []

-- Into an empty index.
accepted :
    (index_publish platform auth index tarballs first tarball [] []).0
    ≡ ok (record { warnings = none })
unfolding Provider.publish store_tarball published_file existing_versions access_crate
    crate_meta_file_rel_path folder is_valid_crate_file_name_char to_lower deserialized
    deserialize_data read_lines lines split_lines put_index_file serialize_data write_versions
    write_publish release_of_publish Dict.lookup Dict.insert text_beq
accepted = refl

index_accepts_example :
    ((publish_crate platform auth index tarballs first tarball (service [])).0
      ≡ ok (record { warnings = none }))
    × (put_tarball platform auth index tarballs first tarball [] ≡ (
      ok tt,
      (publish_crate platform auth index tarballs first tarball (service [])).1.storage,
    ))
index_accepts_example =
    index_accepts platform auth index tarballs index-RunsEndStep first tarball (service [])
      (record { warnings = none }) accepted

-- Into an index that has the version.
refused :
    (index_publish platform auth index tarballs first tarball after []).0
    ≡ err (conflict (already_exists first))
unfolding Provider.publish store_tarball published_file existing_versions access_crate
    crate_meta_file_rel_path folder is_valid_crate_file_name_char to_lower deserialized
    deserialize_data read_lines lines split_lines put_index_file serialize_data write_versions
    write_publish release_of_publish Dict.lookup Dict.insert text_beq
refused = refl

index_refuses_example :
    ((publish_crate platform auth index tarballs first tarball (service after)).0
      ≡ err (index_response (conflict (already_exists first))))
    × (((publish_crate platform auth index tarballs first tarball (service after)).1.storage ≡ [])
        ⊎ ((f : StorageError) × (put_tarball platform auth index tarballs first tarball [] ≡ (
          err f,
          (publish_crate platform auth index tarballs first tarball (service after)).1.storage,
        )))
        ⊎ (((put_tarball platform auth index tarballs first tarball []).0 ≡ ok tt)
            × ((publish_crate platform auth index tarballs first tarball (service after)).1.storage
                ≡ (delete_tarball platform auth index tarballs first tarball
                    (put_tarball platform auth index tarballs first tarball []).1).1)))
index_refuses_example =
    index_refuses platform auth index tarballs index-RunsEndStep first tarball (service after)
      (conflict (already_exists first)) refused

abbrev body : Bytes
body = publish_buffer (2 ∷ 12 ∷ serde) tarball

publish_gate_example :
    ((e : Rejection) × ((publish platform auth index tarballs headers body (service [])).0 ≡ err e)
      × ((publish platform auth index tarballs headers body (service [])).1.index ≡ [])
      × ((publish platform auth index tarballs headers body (service [])).1.storage ≡ []))
    ⊎ ((token : Text) × (json : Publish numbers) × (json_bytes : Bytes) × (crate_bytes : Bytes)
        × (rest : Bytes) × (required_token auth_token_missing auth headers ≡ ok token)
        × (parse_body body ≡ ok (json_bytes, crate_bytes, rest))
        × (platform.publish_from_slice json_bytes ≡ some json)
        × ((auth.publish token json.name 0).0 ≡ ok tt)
        × (publish platform auth index tarballs headers body (service [])
            ≡ publish_crate platform auth index tarballs json crate_bytes
                (record (service []) { auth = (auth.publish token json.name 0).1 })))
publish_gate_example = publish_gate platform auth index tarballs headers body (service [])
