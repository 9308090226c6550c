-- ===== src/Client.antt =====
-- crates/freighter-client/src/lib.rs: the client of a registry, over HTTP as a parameter.
pub mod Wire
pub mod Template
pub mod Download
pub mod Tarball
pub mod Args
pub mod Commands
use freighter.Base.{
  ℕ, leb, ltb, eqb, Bool, true, false, ◌&&◌, ◌||◌, Option, none, some, List, [], ◌∷◌, ◌++◌, map,
  length, Text, codes, Bytes, Result, ok, err, map_err, has_infix, ends_with, trim_end_matches,
  if◌then◌else◌, ◌^◌,
}
use freighter.Base.Acts.{Act, ◌>>=◌, ◌>>◌, lift, modify, gets}
use freighter.Types.Error.{AnyError}
use freighter.Types.Index.{Semver, CrateVersion, Publish, CompletedPublication, ListAllCrateEntry}
use freighter.FsIndex.Meta.{split_lines}
use freighter.Server.Index.{RegistryConfig}
use freighter.Server.Body.{publish_buffer}
use freighter.Server.Client.{fetch_path}
use freighter.Client.Template.{sanitize_dl, apply_markers, pop}
use freighter.Client.Wire.{
  Http, Error, Failure, HttpError, Request, Response, error_of_reqwest, reqwest_failure, request,
  drop_last_empty, text_lines, scheme, json, query_pair,
}

module _ {S : Semver} (H : Http S) where
  pub record Client : Type 0 where
    pub endpoint : Text
    pub token : Option Text
    pub config : RegistryConfig
    pub auth_required : Bool
    pub world : H.World

  -- `error_for_status_ref`
  unfoldable pub error_for_status : Response → Result HttpError (Unit {0})
  error_for_status resp =
      if leb 400 resp.status && leb resp.status 599
      then err (record { status = some resp.status; message = H.status_message resp.status })
      else ok tt

  -- The loop over the lines of `fetch_index`.
  unfoldable pub versions_of_lines : List Text → Result Failure (List (CrateVersion S))
  versions_of_lines [] = ok []
  versions_of_lines (l ∷ ls) = elim (H.version_from_str l) [
    | err e ↦ err (Failure.error (Error.deserialization e))
    | ok version ↦ elim (versions_of_lines ls) [ err f ↦ err f | ok rest ↦ ok (version ∷ rest) ]
  ]

module _ {S : Semver} {H : Http S} where
  -- `.build().unwrap()`
  unfoldable pub build : Request → Act (Client H) Failure Request
  build req = lift (if H.is_url req.url then ok req else err Failure.panic)

  unfoldable pub attach_auth : Request → Act (Client H) Failure Request
  attach_auth req c = elim c.token [
    | none ↦ (ok req, c)
    | some token ↦ (
      if H.is_header_value token
          then ok (record req { authorization = req.authorization ++ token ∷ [] })
          else err Failure.panic,
      c,
    )
  ]

  unfoldable pub attach_if_required : Request → Act (Client H) Failure Request
  attach_if_required req c = if c.auth_required then attach_auth req c else (ok req, c)

  -- `execute` and `error_for_status_ref`, with their `?`.
  unfoldable pub send : Request → Act (Client H) Failure Response
  send req c =
      let (r, world) = H.execute req c.world in
      (
        elim r [
          | err e ↦ err (reqwest_failure e)
          | ok resp ↦ elim (error_for_status H resp) [
            | err e ↦ err (reqwest_failure e)
            | ok _ ↦ ok resp
          ]
        ],
        record c { world = world },
      )

  abbrev pub checked : {A : Type 0} → Result HttpError A → Act (Client H) Failure A
  checked r = lift (map_err reqwest_failure r)

  unfoldable pub fetch_index : Text → Act (Client H) Failure (List (CrateVersion S))
  fetch_index name = do
    url ← gets (λ c. elim (fetch_path name) [
      | none ↦ err Failure.panic
      | some path ↦ ok (c.endpoint ++ b'/' ∷ path)
    ])
    built ← build (request (codes "GET") url)
    req ← attach_if_required built
    resp ← send req
    text ← checked resp.text
    lift (versions_of_lines H (text_lines text))

  unfoldable pub download_crate : Text → S.Version → Act (Client H) Failure Bytes
  download_crate name version = do
    url ← gets (λ c. elim (apply_markers c.config.dl name (S.version_to_string version) []) [
      | none ↦ err Failure.panic
      | some url ↦ ok url
    ])
    built ← build (request (codes "GET") url)
    req ← attach_if_required built
    resp ← send req
    checked resp.bytes

  -- The lengths are written as `u32`, or there is a panic.
  unfoldable pub publish : Publish S → Bytes → Act (Client H) Failure CompletedPublication
  publish version tarball = do
    serialized ←
        lift (map_err (λ e. Failure.error (Error.deserialization e)) (H.publish_to_vec version))
    buf ← lift (
        if ltb (length serialized) (2 ^ 32) && ltb (length tarball) (2 ^ 32)
        then ok (publish_buffer serialized tarball)
        else err Failure.panic)
    url ← gets (λ c. ok (scheme c.config.api ++ (c.config.api ++ codes "/api/v1/crates/new")))
    built ← build (request (codes "PUT") url)
    req ← attach_auth (record built { body = buf })
    resp ← send req
    checked (json H.completed_from_slice resp)

  unfoldable pub list : Option ℕ → Option ℕ → Act (Client H) Failure (List (ListAllCrateEntry S))
  list per_page page = do
    url ← gets (λ c. ok (c.config.api ++ codes "/all"))
    built ← build (request (codes "GET") url)
    req ← attach_if_required built
    resp ← send (record req {
      query = query_pair (codes "per_page") per_page ++ query_pair (codes "page") page;
    })
    checked (json H.list_from_slice resp)

  unfoldable pub register : Text → Act (Client H) Failure (Unit {0})
  register username = do
    url ← gets (λ c. ok (scheme c.config.api ++ (c.config.api ++ codes "/api/v1/crates/account")))
    built ← lift (
        if H.is_url url
        then ok (record (request (codes "POST") url) { form = (codes "username", username) ∷ [] })
        else err (Failure.error (Error.other (H.url_error url))))
    req ← attach_auth built
    resp ← send req
    text ← checked resp.text
    modify (λ c. record c { token = some text })

  unfoldable pub set_token : Text → Client H → Client H
  set_token token c = record c { token = some token }

-- The configuration as the client keeps it.
unfoldable pub client_config : RegistryConfig → RegistryConfig
client_config config = record config {
  api = if ends_with (codes "/") config.api then pop config.api else config.api;
  dl = sanitize_dl config.dl;
}

module _ {S : Semver} (H : Http S) where
  -- The second request of `from_reqwest`, with the token.
  unfoldable pub config_with_token :
      Request → Option Text → H.World → Result Failure Response × H.World
  config_with_token req token w = elim token [
    | none ↦ (err Failure.panic, w)
    | some t ↦
        if H.is_header_value t
        then (let (r, w') = H.execute (record req { authorization = t ∷ [] }) w in
            (elim r [ err e ↦ err Failure.panic | ok resp ↦ ok resp ], w'))
        else (err (Failure.error (Error.other (H.header_error t))), w)
  ]

  -- The response to the request for the configuration, and whether it took a token.
  unfoldable pub config_response :
      Request → Option Text → H.World → Result Failure (Response × Bool) × H.World
  config_response req token w =
      let (r, w') = H.execute req w in
      elim r [
        | err e ↦ (err (reqwest_failure e), w')
        | ok resp ↦
            if eqb resp.status 401
            then (let (again, w'') = config_with_token req token w' in
                (elim again [ err f ↦ err f | ok resp' ↦ ok (resp', true) ], w''))
            else (ok (resp, false), w')
      ]

  -- The message of a refused configuration.
  abbrev pub cannot_get : Text → Response → Failure
  cannot_get url resp = Failure.error (
      Error.other (
        (codes "Can't get config from "
          ++ (url
              ++ (codes ": " ++ (elim resp.text [
                | ok t ↦ t
                | err e ↦ elim e.message [ [] ↦ [] | m ∷ _ ↦ m ]
              ]))))
        ∷ []))

  unfoldable pub from_reqwest : Text → Option Text → H.World → Result Failure (Client H) × H.World
  from_reqwest endpoint token w =
      let base = trim_end_matches b'/' endpoint in
      let config_url = base ++ codes "/config.json" in
      let (r, w') = config_response (request (codes "GET") config_url) token w in
      (
        elim r [
          | err f ↦ err f
          | ok (resp, with_token) ↦
              if eqb resp.status 200
              then (elim (json H.config_from_slice resp) [
                | err e ↦ err (reqwest_failure e)
                | ok config ↦ ok (record {
                  endpoint = base;
                  token = token;
                  config = client_config config;
                  auth_required = with_token || config.auth_required;
                  world = w';
                })
              ])
              else err (cannot_get config_url resp)
        ],
        w',
      )
