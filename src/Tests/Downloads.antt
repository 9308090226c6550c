-- ===== src/Tests/Downloads.antt =====
-- Examples of a download and of an index request.
use freighter.Base.{
  ◌≡◌, ◌⊎◌, refl, none, some, [], ◌∷◌, Text, text_eq, text_beq, codes, ok, true, false, to_lower,
}
use freighter.Base.Dict
use freighter.Base.Acts.{pure}
use freighter.Storage.S3.{s3_crates, pull_crate, pull_object, construct_paths}
use freighter.Storage.Metadata.{FileResponse}
use freighter.FsIndex.Path.{crate_meta_file_rel_path, folder, is_valid_crate_file_name_char}
use freighter.FsIndex.Meta.{deserialize_data, read_lines, lines, split_lines}
use freighter.FsIndex.Provider.{access_crate, deserialized, confirm_existence, rfind}
use freighter.Auth.Provider.{default_token_from_headers}
use freighter.Server.Service.{Service, required_token}
use freighter.Server.Downloads.{serve_crate, send_crate, Sent, serve_crate_ok}
use freighter.Server.Client.{crate_prefix, fetch_path}
use freighter.Server.Index.{sparse_meta}
use freighter.Server.Routes.{Method}
use freighter.Server.Router.{Request, Reply, serve, respond}
use freighter.Server.Router.Sparse.{serve-fetch_path}
use freighter.Server.Root.{Timing, Order}
use freighter.Tests.Network.{axum, axum-RoutesIndex}
use freighter.Tests.Paths.{serde, serde_path}
use freighter.Tests.Index.{after}
use freighter.Tests.Buckets.{shelf, serde_1}
use freighter.Tests.Service.{auth, index, platform, settings, headers}

abbrev stored : Service auth index (s3_crates shelf)
stored = record { config = settings; auth = 0; index = after; storage = (serde_1, 9 ∷ []) ∷ [] }

abbrev file : FileResponse
file = record { last_modified = none; «data» = 9 ∷ [] }

downloaded :
    serve_crate platform auth index (s3_crates shelf) headers serde 1 stored ≡ (ok file, stored)
unfolding serve_crate send_crate required_token default_token_from_headers confirm_existence rfind
    access_crate crate_meta_file_rel_path folder is_valid_crate_file_name_char to_lower deserialized
    deserialize_data read_lines lines split_lines pull_crate pull_object construct_paths Dict.lookup
    text_beq pure
downloaded = refl

serve_crate_ok_example :
    Sent platform auth index (s3_crates shelf) serde 1 file stored stored
    × ((true ≡ false)
        ⊎ ((token : Text) × (required_token [] auth headers ≡ ok token)
            × ((auth.auth_crate_download token serde 0).0 ≡ ok tt)))
serve_crate_ok_example =
    serve_crate_ok platform auth index (s3_crates shelf) headers serde 1 stored stored file
      downloaded

serde_rel_path : crate_meta_file_rel_path serde ≡ some serde_path
unfolding crate_meta_file_rel_path folder is_valid_crate_file_name_char
serde_rel_path = refl

serde-fetch_path : fetch_path serde ≡ some (codes "se/rd/serde")
unfolding fetch_path crate_prefix
serde-fetch_path = refl

abbrev open_service : Service auth index (s3_crates shelf)
open_service = record stored { config = record settings { auth_required = false } }

-- The request of the client, and how the checks of a health check would come out.
abbrev asked : Request
asked = record {
  method = Method.get;
  path = codes "/index/se/rd/serde";
  query = [];
  headers = headers;
  body = [];
}

abbrev timing : Timing auth index (s3_crates shelf)
timing = record {
  order = Order.auth_index_storage;
  timed_out = λ c. false;
  cut_auth = λ s. s;
  cut_index = λ s. s;
  cut_storage = λ s. s;
}

serve-fetch_path_example :
    serve platform axum auth index (s3_crates shelf) [] timing asked open_service
    ≡ respond Reply.entries
        (λ s. (sparse_meta platform auth index (s3_crates shelf) serde s.index, s))
        open_service
serve-fetch_path_example =
    serve-fetch_path platform axum auth index (s3_crates shelf) [] timing serde
      (codes "se/rd/serde") asked open_service axum-RoutesIndex refl serde-fetch_path refl refl refl
