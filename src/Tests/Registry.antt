-- ===== src/Tests/Registry.antt =====
-- A registry with a client, a network, a server, and a file index.
use freighter.Base.Acts.{pure}
use freighter.FsIndex.Provider
use freighter.FsIndex.Provider.{
  published_file, existing_versions, access_crate, deserialized, put_index_file,
}
use freighter.FsIndex.Path.{crate_meta_file_rel_path, folder, is_valid_crate_file_name_char}
use freighter.FsIndex.Meta.{
  deserialize_data, read_lines, lines, split_lines, serialize_data, write_versions, write_publish,
}
use freighter.Types.Convert.{release_of_publish}
use freighter.Server.Publish.{publish_crate, store_tarball}
use freighter.Server.Router.Access.{IsOpen, serve_no_token}
use freighter.Server.Router.Writes.{MayWrite, serve_writes}
use freighter.Tests.Files.{files, files-IsStorage}
use freighter.Tests.Service.{settings}
use freighter.Client.Wire.{reqwest_failure}
use freighter.Server.Router.{serve}
use freighter.Base.{
  to_lower, ap, ◌∙◌, ◌≡◌, ◌⊎◌, refl, true, false, none, some, List, [], ◌∷◌, Text, Bytes, codes, ok,
  err, text_beq, length, arith, ◌≤◌,
}
use freighter.Base.Dict
use freighter.Types.Error.{Rejection}
use freighter.Types.Index.{Publish}
use freighter.Auth.Provider.{default_token_from_headers}
use freighter.Server.Routes.{Method, Endpoint, router}
use freighter.Server.Router.{Request, found}
use freighter.Tests.Files.{numbers, codec, codec-IsJson, bare_publish}
use freighter.Tests.Paths.{serde}
use freighter.Server.Root.{Timing, Order}
use freighter.Server.Body.{publish_buffer}
use freighter.Server.Publish.{publish_authorized}
use freighter.Client.{Client, publish as client_request}
use freighter.Registry.{connected}
use freighter.Registry.Publishing.{length-publish_buffer}
use freighter.Registry.Outcome.{as_seen, client_publish, publish_too_large}
use freighter.Registry.Listed.{Published, client_publish_listed}
use freighter.Tests.Service.{platform, auth, index, tarballs, service}
use freighter.Tests.Network.{axum, axum-IsAxum, api, token_header, network, http, network-IsNetwork}

abbrev first : Publish numbers
first = bare_publish serde 1

abbrev serialized : Bytes
serialized = 2 ∷ 12 ∷ serde

abbrev timing : Timing auth index tarballs
timing = record {
  order = Order.auth_index_storage;
  timed_out = λ c. false;
  cut_auth = λ s. s;
  cut_index = λ s. s;
  cut_storage = λ s. s;
}

-- A client of a server whose index is empty.
abbrev client : Client (connected http network platform axum auth index tarballs [] timing)
client = record {
  endpoint = codes "http://localhost/index";
  token = some (codes "token");
  config = record { dl = codes "d"; api = api; auth_required = true };
  auth_required = true;
  world = service [];
}

small_enough : length (publish_buffer serialized (9 ∷ [])) ≤ 1024
small_enough = omega (arith, length-publish_buffer serialized (9 ∷ []))

client_publish_example : client_request first (9 ∷ []) client ≡ (
  as_seen http network platform axum auth index tarballs [] timing
      (publish_authorized platform auth index tarballs
        (codes "token")
        first
        (9 ∷ [])
        (service [])).0,
  record client {
    world =
        (publish_authorized platform auth index tarballs
          (codes "token")
          first
          (9 ∷ [])
          (service [])).1;
  },
)
client_publish_example =
    client_publish http network platform axum auth index tarballs [] timing first (9 ∷ [])
      serialized (codes "token") client axum-IsAxum network-IsNetwork (λ headers. refl) refl refl
      refl refl refl (omega arith) small_enough (omega arith)

publish_works :
    (publish_authorized platform auth index tarballs (codes "token") first (9 ∷ []) (service [])).0
    ≡ ok (record { warnings = none })
unfolding pure publish_authorized publish_crate Provider.publish store_tarball published_file
    existing_versions access_crate crate_meta_file_rel_path folder is_valid_crate_file_name_char
    to_lower deserialized deserialize_data read_lines lines split_lines put_index_file
    serialize_data write_versions write_publish release_of_publish Dict.lookup Dict.insert text_beq
publish_works = refl

abbrev served_client : Client (connected http network platform axum auth index tarballs [] timing)
served_client = record client {
  world =
      (publish_authorized platform auth index tarballs (codes "token") first (9 ∷ [])
        (service [])).1;
}

client_works :
    client_request first (9 ∷ []) client ≡ (ok (record { warnings = none }), served_client)
client_works =
    client_publish_example
    ∙ ap (λ r. (as_seen http network platform axum auth index tarballs [] timing r, served_client))
        publish_works

client_publish_listed_example :
    Published codec files
      (λ s. 0)
      (λ rs. rs)
      platform
      auth
      tarballs
      (codes "token")
      first
      (9 ∷ [])
      (service [])
      served_client.world
client_publish_listed_example =
    client_publish_listed codec files (λ s. 0) (λ rs. rs) platform auth tarballs http network axum
      [] timing first (9 ∷ []) serialized (codes "token") client axum-IsAxum network-IsNetwork
      (λ headers. refl) refl refl refl refl refl (omega arith) small_enough (omega arith)
      codec-IsJson files-IsStorage served_client (record { warnings = none }) client_works

-- A client of a server that takes next to nothing.
abbrev tight : Client (connected http network platform axum auth index tarballs [] timing)
tight = record client {
  world = record (service []) { config = record settings { crate_size_limit = 8 } };
}

publish_too_large_example :
    client_request first (9 ∷ []) tight
    ≡ (err (reqwest_failure (record { status = some 413; message = [] })), tight)
publish_too_large_example =
    publish_too_large http network platform axum auth index tarballs [] timing first (9 ∷ [])
      serialized (codes "token") tight axum-IsAxum network-IsNetwork refl refl refl refl
      (omega (arith, length-publish_buffer serialized (9 ∷ []))) (omega arith) (omega arith)

abbrev anonymous : Request
anonymous = record {
  method = Method.put;
  path = codes "/api/v1/crates/new";
  query = [];
  headers = token_header [];
  body = publish_buffer serialized (9 ∷ []);
}

no_token : auth.token_from_headers anonymous.headers ≡ ok none
unfolding default_token_from_headers Dict.lookup
no_token = refl

serve_no_token_example :
    ((e : Rejection) × (serve platform axum auth index tarballs [] timing anonymous (service [])
        ≡ (err e, service [])))
    ⊎ ((e : Endpoint) × (ps : List Text) × (axum.select router anonymous.method anonymous.path
          ≡ found e ps)
        × IsOpen e)
serve_no_token_example =
    serve_no_token platform axum auth index tarballs [] timing anonymous (service []) refl no_token

serve_writes_example :
    (((serve platform axum auth index tarballs [] timing anonymous (service [])).1.index ≡ [])
      × ((serve platform axum auth index tarballs [] timing anonymous (service [])).1.storage ≡ []))
    ⊎ ((e : Endpoint) × (ps : List Text) × (axum.select router anonymous.method anonymous.path
          ≡ found e ps)
        × MayWrite platform auth index tarballs axum e ps anonymous (service []))
    ⊎ ((ps : List Text) × (axum.select router anonymous.method anonymous.path
          ≡ found Endpoint.serve_crate ps)
        × ((serve platform axum auth index tarballs [] timing anonymous (service [])).1.index ≡ []))
    ⊎ ((ps : List Text) × (axum.select router anonymous.method anonymous.path
          ≡ found Endpoint.healthcheck ps))
serve_writes_example =
    serve_writes platform auth index tarballs axum [] timing anonymous (service [])
