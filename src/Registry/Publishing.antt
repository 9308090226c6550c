-- ===== src/Registry/Publishing.antt =====
-- `Client::publish` against the handler `publish` of the server.
use freighter.Base.{
  text_beq, ◌≡◌, ◌+◌, ◌≤◌, ◌<◌, refl, true, [], ◌∷◌, ◌++◌, Text, codes, Bytes, ok, length,
  length-append, arith, ap, ◌∙◌, err,
}
use freighter.Types.Index.{Semver, Publish}
use freighter.Types.IndexProvider.{IndexProvider}
use freighter.Storage.Crates.{StorageProvider}
use freighter.Auth.Provider.{AuthProvider, HeaderMap, default_token_from_headers}
use freighter.Server.Service.{Platform, Service, required_token, auth_token_missing}
use freighter.Server.Body.{publish_buffer, to_le_bytes, parse_body, parse-publish_buffer}
use freighter.Server.Routes.{Method, Endpoint, router}
use freighter.Server.Router.{Axum, Reply, found, serve, handle, extract, respond}
use freighter.Server.Publish.{publish, publish_authorized}
use freighter.Server.Root.{Timing}
use freighter.Client.Wire
use freighter.Client.Wire.{Http, Response, Failure, scheme}
use freighter.Registry.{Network, IsAxum, IsNetwork, is_visible, Rejection}

pub length-publish_buffer :
    (serialized tarball : Bytes)
    → length (publish_buffer serialized tarball) ≡ 8 + length serialized + length tarball
unfolding publish_buffer to_le_bytes
length-publish_buffer serialized tarball =
    omega (arith, length-append serialized (to_le_bytes (length tarball) ++ tarball))

abbrev pub new_path : Text
new_path = codes "/api/v1/crates/new"

-- The request that the client makes.
abbrev pub publish_request : Text → Text → Bytes → Wire.Request
publish_request api token body = record {
  method = codes "PUT";
  url = scheme api ++ (api ++ new_path);
  query = [];
  form = [];
  authorization = token ∷ [];
  body = body;
}

module _ {S : Semver} (H : Http S) (N : Network S) (X : Platform S) (W : Axum S) (A : AuthProvider)
    (I : IndexProvider S) (T : StorageProvider) (page : Text) (t : Timing A I T) where
  -- The route of the request.
  publish_route : IsAxum W → W.select router Method.put new_path ≡ found Endpoint.publish []
  unfolding router text_beq
  publish_route axum = axum.static_routes.1.1.0.0 refl

  module _ (token api : Text) (axum : IsAxum W) (net : IsNetwork N H X api) where
    routed :
        (body : Bytes)
        → W.select router
            (N.request_of (publish_request api token body)).method
            (N.request_of (publish_request api token body)).path
          ≡ found Endpoint.publish []
    routed body =
        let req = publish_request api token body in
        rw (net.put_arrives req refl, net.path_arrives req new_path refl refl) (publish_route axum)

    -- A body beyond the limit is refused before the handler runs.
    pub served_beyond :
        (body : Bytes) (s : Service A I T)
        → s.config.crate_size_limit < length body
        → (e : Rejection) × (serve X W A I T page t
              (N.request_of (publish_request api token body))
              s
            ≡ (err e, s))
          × (e.status ≡ 413)
    unfolding serve handle extract
    served_beyond body s beyond =
        let (e, refused, status) = axum.bytes_beyond s.config.crate_size_limit body beyond in
        (
          e,
          ground
              (arith, routed body, net.body_arrives (publish_request api token body) refl, refused),
          status,
        )

  module _ (p : Publish S) (tarball serialized : Bytes) (token api : Text) (axum : IsAxum W)
      (net : IsNetwork N H X api)
      (reads : (headers : HeaderMap)
        → A.token_from_headers headers ≡ default_token_from_headers headers)
      (visible : is_visible token ≡ true) (written : H.publish_to_vec p ≡ ok serialized) where
    abbrev req : Wire.Request
    req = publish_request api token (publish_buffer serialized tarball)

    token_read : required_token auth_token_missing A (N.request_of req).headers ≡ ok token
    unfolding required_token
    token_read =
        ground (arith, reads (N.request_of req).headers, net.token_arrives req token refl visible)

    module _ (s : Service A I T) (filled : 1 ≤ length tarball)
        (small : length (publish_buffer serialized tarball) ≤ s.config.crate_size_limit)
        (bounded : s.config.crate_size_limit < 4294967296) where
      parsed : parse_body (publish_buffer serialized tarball) ≡ ok (serialized, tarball, [])
      parsed =
          parse-publish_buffer serialized tarball filled
            (omega (arith, length-publish_buffer serialized tarball))
            (omega (arith, length-publish_buffer serialized tarball))

      handled :
          publish X A I T (N.request_of req).headers (publish_buffer serialized tarball) s
          ≡ publish_authorized X A I T token p tarball s
      unfolding publish
      handled = ground (arith, token_read, parsed, net.publish_read_back p serialized written)

      body_taken :
          W.bytes s.config.crate_size_limit (N.request_of req).body
          ≡ ok (publish_buffer serialized tarball)
      body_taken =
          ap (W.bytes s.config.crate_size_limit) (net.body_arrives req refl)
          ∙ axum.bytes_within s.config.crate_size_limit (publish_buffer serialized tarball) small

      -- It is served as an authorized publish.
      pub served :
          serve X W A I T page t
            (N.request_of (publish_request api token (publish_buffer serialized tarball)))
            s
          ≡ respond Reply.completed (publish_authorized X A I T token p tarball) s
      unfolding serve handle extract respond
      served = ground (
        arith,
        routed token api axum net (publish_buffer serialized tarball),
        body_taken,
        handled,
      )
