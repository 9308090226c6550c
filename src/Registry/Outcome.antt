-- ===== src/Registry/Outcome.antt =====
-- What `Client::publish` returns, and what it leaves on the server.
use freighter.Base.{
  ℕ, ◌≡◌, ◌≤◌, ◌<◌, true, some, ◌++◌, Text, Bytes, ok, err, length, arith, Result-cases, inl, inr,
  Result,
}
use freighter.Base.Acts.{◌>>=◌}
use freighter.Types.Error.{
  AnyError, Rejection, AuthError, IndexError, auth_response, index_response,
}
use freighter.Types.Index.{Semver, CompletedPublication, Publish}
use freighter.Types.IndexProvider.{IndexProvider}
use freighter.Storage.Crates.{StorageProvider}
use freighter.Auth.Provider.{AuthProvider, HeaderMap, default_token_from_headers}
use freighter.Server.Service.{Platform, Service}
use freighter.Server.Body.{publish_buffer}
use freighter.Server.Router.{Axum, Reply, respond}
use freighter.Server.Publish.{publish_authorized, publish_crate}
use freighter.Server.Publish.Outcome.{index_publish}
use freighter.Server.Root.{Timing}
use freighter.Client.{
  publish as client_request, attach_auth, build, Client, send, error_for_status, build, attach_auth,
}
use freighter.Client.Wire
use freighter.Client.Wire.{Http, Response, Failure, HttpError, scheme, json, reqwest_failure}
use freighter.Registry.{Network, IsAxum, IsNetwork, connected, is_visible}
use freighter.Registry.Publishing.{
  publish_request, served, new_path, length-publish_buffer, served_beyond,
}

-- A status for an error.
abbrev pub IsErrorStatus : ℕ → Type 0
IsErrorStatus n = (400 ≤ n) × (n ≤ 599)

auth_response-IsErrorStatus :
    (error_id : AnyError → Text) (e : AuthError) → IsErrorStatus (auth_response error_id e).status
unfolding auth_response
auth_response-IsErrorStatus error_id AuthError.unauthorized = omega arith
auth_response-IsErrorStatus error_id AuthError.forbidden = omega arith
auth_response-IsErrorStatus error_id AuthError.invalid_credentials = omega arith
auth_response-IsErrorStatus error_id AuthError.unimplemented = omega arith
auth_response-IsErrorStatus error_id AuthError.crate_not_found = omega arith
auth_response-IsErrorStatus error_id (AuthError.service_error e) = omega arith

index_response-IsErrorStatus : (e : IndexError) → IsErrorStatus (index_response e).status
unfolding index_response
index_response-IsErrorStatus (IndexError.conflict m) = omega arith
index_response-IsErrorStatus IndexError.crate_name_not_allowed = omega arith
index_response-IsErrorStatus IndexError.not_found = omega arith
index_response-IsErrorStatus (IndexError.service_error e) = omega arith

module _ {S : Semver} (H : Http S) (N : Network S) (X : Platform S) (W : Axum S) (A : AuthProvider)
    (I : IndexProvider S) (T : StorageProvider) (page : Text) (t : Timing A I T) where
  crate-IsErrorStatus :
      (p : Publish S) (tarball : Bytes) (s : Service A I T) (e : Rejection)
      → (publish_crate X A I T p tarball s).0 ≡ err e
      → IsErrorStatus e.status
  unfolding publish_crate
  crate-IsErrorStatus p tarball s e h =
      elim (Result-cases (index_publish X A I T p tarball s.index s.storage).0) [
        | inl (done, accepted) ↦ (ground arith, ground arith)
        | inr (f, refused) ↦
            let same : e ≡ index_response f = ground arith in
            rw same (index_response-IsErrorStatus f)
      ]

  authorized-IsErrorStatus :
      (token : Text) (p : Publish S) (tarball : Bytes) (s : Service A I T) (e : Rejection)
      → (publish_authorized X A I T token p tarball s).0 ≡ err e
      → IsErrorStatus e.status
  unfolding publish_authorized
  authorized-IsErrorStatus token p tarball s e h =
      elim (Result-cases (A.publish token p.name s.auth).0) [
        | inl (_, granted) ↦
            crate-IsErrorStatus p tarball (record s { auth = (A.publish token p.name s.auth).1 }) e
              (ground arith)
        | inr (f, refused) ↦
            let same : e ≡ auth_response X.error_id f = ground arith in
            rw same (auth_response-IsErrorStatus X.error_id f)
      ]

  -- The outcome of the handler, as the client sees it.
  abbrev pub as_seen : Result Rejection CompletedPublication → Result Failure CompletedPublication
  as_seen (ok done) = ok done
  as_seen (err e) =
      err (reqwest_failure (record { status = some e.status; message = H.status_message e.status }))

  module _ (p : Publish S) (tarball serialized : Bytes) (token : Text)
      (c : Client (connected H N X W A I T page t)) (axum : IsAxum W)
      (net : IsNetwork N H X c.config.api)
      (reads : (headers : HeaderMap)
        → A.token_from_headers headers ≡ default_token_from_headers headers)
      (visible : is_visible token ≡ true) (written : H.publish_to_vec p ≡ ok serialized)
      (has_token : c.token ≡ some token) (is_header : H.is_header_value token ≡ true)
      (is_url : H.is_url (scheme c.config.api ++ (c.config.api ++ new_path)) ≡ true)
      (filled : 1 ≤ length tarball)
      (small : length (publish_buffer serialized tarball) ≤ c.world.config.crate_size_limit)
      (bounded : c.world.config.crate_size_limit < 4294967296) where
    abbrev req : Wire.Request
    req = publish_request c.config.api token (publish_buffer serialized tarball)

    sent_ok :
        (done : CompletedPublication) (s' : Service A I T)
        → publish_authorized X A I T token p tarball c.world ≡ (ok done, s')
        → send req c ≡ (ok (N.response_of (ok (Reply.completed done))), record c { world = s' })
    unfolding send error_for_status respond
    sent_ok done s' h = ground (
      arith,
      served H N X W A I T page t p tarball serialized token c.config.api axum net reads visible
          written c.world filled small bounded,
      net.reply_arrives (Reply.completed done),
    )

    sent_err :
        (e : Rejection) (s' : Service A I T)
        → publish_authorized X A I T token p tarball c.world ≡ (err e, s')
        → send req c ≡ (
          err (
              reqwest_failure
                (record { status = some e.status; message = H.status_message e.status })),
          record c { world = s' },
        )
    unfolding send error_for_status respond
    sent_err e s' h = ground (
      arith,
      served H N X W A I T page t p tarball serialized token c.config.api axum net reads visible
          written c.world filled small bounded,
      net.refusal_arrives e,
      authorized-IsErrorStatus token p tarball c.world e,
    )

    -- With an axum and a network that keep their promises, and an auth provider that reads tokens
    -- the default way: if a client with a token publishes a tarball that is not empty, in a body
    -- within the limit of the server (which is below 2^32), then `Client::publish` has the effect
    -- of `publish_authorized` under that token on the server, and returns what that gives, an
    -- error as the failure of a response with its status.
    pub client_publish : client_request p tarball c ≡ (
      as_seen (publish_authorized X A I T token p tarball c.world).0,
      record c { world = (publish_authorized X A I T token p tarball c.world).1 },
    )
    unfolding client_request ◌>>=◌ build attach_auth json
    client_publish =
        let s' = (publish_authorized X A I T token p tarball c.world).1 in
        elim (Result-cases (publish_authorized X A I T token p tarball c.world).0) [
          | inl (done, accepted) ↦
              let (bytes, came, back) = net.completed_arrives done in
              ground (
                arith,
                written,
                has_token,
                is_header,
                is_url,
                accepted,
                came,
                back,
                length-publish_buffer serialized tarball,
                sent_ok done s' (ground arith),
              )
          | inr (e, refused) ↦ ground (
            arith,
            written,
            has_token,
            is_header,
            is_url,
            refused,
            length-publish_buffer serialized tarball,
            sent_err e s' (ground arith),
          )
        ]

  module _ (p : Publish S) (tarball serialized : Bytes) (token : Text)
      (c : Client (connected H N X W A I T page t)) (axum : IsAxum W)
      (net : IsNetwork N H X c.config.api) (written : H.publish_to_vec p ≡ ok serialized)
      (has_token : c.token ≡ some token) (is_header : H.is_header_value token ≡ true)
      (is_url : H.is_url (scheme c.config.api ++ (c.config.api ++ new_path)) ≡ true) where
    too_large_sent :
        c.world.config.crate_size_limit < length (publish_buffer serialized tarball)
        → send (publish_request c.config.api token (publish_buffer serialized tarball)) c ≡ (
          err (reqwest_failure (record { status = some 413; message = H.status_message 413 })),
          c,
        )
    unfolding send error_for_status
    too_large_sent beyond =
        let (e, refused, status) =
          served_beyond H N X W A I T page t token c.config.api axum net
            (publish_buffer serialized tarball) c.world beyond in
        ground (arith, refused, status, net.refusal_arrives e)

    -- With an axum and a network that keep their promises, a publish whose body is beyond the
    -- limit of the server, with both parts shorter than 2^32 bytes, fails in the client with the
    -- status 413, and changes neither client nor server.
    pub publish_too_large :
        c.world.config.crate_size_limit < length (publish_buffer serialized tarball)
        → length serialized < 4294967296
        → length tarball < 4294967296
        → client_request p tarball c ≡ (
          err (reqwest_failure (record { status = some 413; message = H.status_message 413 })),
          c,
        )
    unfolding client_request ◌>>=◌ build attach_auth
    publish_too_large beyond json_short tarball_short =
        ground (arith, written, has_token, is_header, is_url, too_large_sent beyond)
