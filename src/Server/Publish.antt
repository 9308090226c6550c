-- ===== src/Server/Publish.antt =====
-- The handler `publish` of crates/freighter-server/src/api.rs. The counters of metrics are left out.
pub mod Outcome
use freighter.Base.{Bool, true, false, none, some, [], Text, codes, Bytes, ok, err, if◌then◌else◌}
use freighter.Base.Acts.{Act}
use freighter.Types.Error.{
  context, IndexError, Rejection, plain, auth_response, index_response, any_of_storage,
}
use freighter.Types.Index.{Semver, Publish, CompletedPublication}
use freighter.Types.IndexProvider.{IndexProvider}
use freighter.Storage.Crates.{StorageProvider}
use freighter.Auth.Provider.{AuthProvider, HeaderMap}
use freighter.Server.Body.{parse_body}
use freighter.Server.Service.{Platform, Service, required_token, auth_token_missing}

module _ (T : StorageProvider) where
  -- `end_step`, on the storage and `stored_crate`.
  unfoldable pub store_tarball :
      Text → Text → Bytes → Bytes → Act (T.State × Bool) IndexError (Unit {0})
  store_tarball name version crate_bytes cksum (t, stored) =
      let (put, t') = T.put_crate name version crate_bytes cksum t in
      elim put [
        | err e ↦ (
          err (
              IndexError.service_error (
                context (codes "Failed to store the crate in a storage medium")
                  (any_of_storage e))),
          (t', stored),
        )
        | ok _ ↦ (ok tt, (t', true))
      ]

module _ {S : Semver} (X : Platform S) (A : AuthProvider) (I : IndexProvider S)
    (T : StorageProvider) where
  -- From the call of `index.publish` on. A panic is a response too (`CatchPanicLayer`).
  unfoldable pub publish_crate :
      Publish S → Bytes → Act (Service A I T) Rejection CompletedPublication
  publish_crate json crate_bytes s =
      let version = S.version_to_string json.vers in
      let cksum = X.sha256 crate_bytes in
      let (res, state) =
        I.publish (T.State × Bool) json cksum (store_tarball T json.name version crate_bytes cksum)
          (s.index, (s.storage, false)) in
      let stored_crate = state.1.1 in
      elim res [
        | ok done ↦ (
          if stored_crate then ok done else err (plain 500 []),
          record s { index = state.0; storage = state.1.0 },
        )
        | err e ↦
            let undone =
              if stored_crate
              then (T.delete_crate json.name version cksum state.1.0).1
              else state.1.0 in
            (err (index_response e), record s { index = state.0; storage = undone })
      ]

  -- The handler from the call of `auth.publish` on.
  unfoldable pub publish_authorized :
      Text → Publish S → Bytes → Act (Service A I T) Rejection CompletedPublication
  publish_authorized token json crate_bytes s =
      let (allowed, auth) = A.publish token json.name s.auth in
      elim allowed [
        | err e ↦ (err (auth_response X.error_id e), record s { auth = auth })
        | ok _ ↦ publish_crate json crate_bytes (record s { auth = auth })
      ]

  -- `publish`
  unfoldable pub publish : HeaderMap → Bytes → Act (Service A I T) Rejection CompletedPublication
  publish headers body s = elim (required_token auth_token_missing A headers) [
    | err e ↦ (err e, s)
    | ok token ↦ elim (parse_body body) [
      | err e ↦ (err e, s)
      | ok (json_bytes, crate_bytes, _) ↦ elim (X.publish_from_slice json_bytes) [
        | none ↦ (err (plain 400 (codes "JSON parsing error")), s)
        | some json ↦ publish_authorized token json crate_bytes s
      ]
    ]
  ]
