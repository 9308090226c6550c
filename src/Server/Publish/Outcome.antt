-- ===== src/Server/Publish/Outcome.antt =====
-- What a publish request leaves in the storage, accepted or not.
use freighter.Base.{
  ◌≡◌, ◌⊎◌, inl, inr, Bool, true, false, Bytes, Result, ok, err, Result-cases, arith, Text, some,
  Option-cases, codes,
}
use freighter.Base.Acts.{Act}
use freighter.Server.Body.{parse_body}
use freighter.Types.Error.{StorageError, IndexError, index_response}
use freighter.Types.Index.{Semver, Publish, CompletedPublication}
use freighter.Types.IndexProvider.{IndexProvider, RunsEndStep}
use freighter.Storage.Crates.{StorageProvider}
use freighter.Auth.Provider.{AuthProvider, HeaderMap}
use freighter.Server.Service.{Platform, Service}
use freighter.Server.Publish.{
  store_tarball, publish_crate, publish, publish_authorized, Rejection, required_token,
  auth_token_missing, plain, auth_response,
}

module _ {S : Semver} (X : Platform S) (A : AuthProvider) (I : IndexProvider S)
    (T : StorageProvider) where
  -- `put_crate` and `delete_crate` as the handler calls them.
  abbrev pub put_tarball : Publish S → Bytes → Act T.State StorageError (Unit {0})
  put_tarball json crate_bytes =
      T.put_crate json.name (S.version_to_string json.vers) crate_bytes (X.sha256 crate_bytes)

  abbrev pub delete_tarball : Publish S → Bytes → Act T.State StorageError (Unit {0})
  delete_tarball json crate_bytes =
      T.delete_crate json.name (S.version_to_string json.vers) (X.sha256 crate_bytes)

  abbrev end_step : Publish S → Bytes → Act (T.State × Bool) IndexError (Unit {0})
  end_step json crate_bytes =
      store_tarball T json.name (S.version_to_string json.vers) crate_bytes (X.sha256 crate_bytes)

  -- The call of the index.
  abbrev pub index_publish :
      Publish S
      → Bytes
      → I.State
      → T.State
      → Result IndexError CompletedPublication × (I.State × (T.State × Bool))
  index_publish json crate_bytes i t =
      I.publish (T.State × Bool) json (X.sha256 crate_bytes) (end_step json crate_bytes)
        (i, (t, false))

  stored_end :
      (json : Publish S) (crate_bytes : Bytes) (t t' : T.State) (b : Bool)
      → end_step json crate_bytes (t, false) ≡ (ok tt, (t', b))
      → (b ≡ true) × (put_tarball json crate_bytes t ≡ (ok tt, t'))
  unfolding store_tarball
  stored_end json crate_bytes t t' b h = elim (Result-cases (put_tarball json crate_bytes t).0) [
    | inl (_, done) ↦ (ground arith, ground arith)
    | inr (e, failed) ↦ absurd (ground arith)
  ]

  module _ (contract : RunsEndStep I) where
    -- Over an index that keeps the contract of `end_step`: if the index accepts a publish, the
    -- handler answers with its result (the assertion that the tarball was stored holds), and the
    -- storage is the one that a successful `put_crate` left.
    pub index_accepts :
        (json : Publish S) (crate_bytes : Bytes) (s : Service A I T) (done : CompletedPublication)
        → (index_publish json crate_bytes s.index s.storage).0 ≡ ok done
        → ((publish_crate X A I T json crate_bytes s).0 ≡ ok done)
          × (put_tarball json crate_bytes s.storage
              ≡ (ok tt, (publish_crate X A I T json crate_bytes s).1.storage))
    unfolding publish_crate
    index_accepts json crate_bytes s done accepted =
        let call = index_publish json crate_bytes s.index s.storage in
        let ran =
          contract.accepted (T.State × Bool) json (X.sha256 crate_bytes) (end_step json crate_bytes)
            s.index call.1.0 (s.storage, false) call.1.1 done (ground arith) in
        let stored = stored_end json crate_bytes s.storage call.1.1.0 call.1.1.1 ran in
        (ground (arith, stored.0), ground (arith, stored.1))

    -- Over an index that keeps the contract of `end_step`: if the index refuses a publish, the
    -- handler answers with the error of the index, and the storage is as it was, or as a failed
    -- `put_crate` left it, or as `delete_crate` left it after a `put_crate` that succeeded.
    pub index_refuses :
        (json : Publish S) (crate_bytes : Bytes) (s : Service A I T) (e : IndexError)
        → (index_publish json crate_bytes s.index s.storage).0 ≡ err e
        → ((publish_crate X A I T json crate_bytes s).0 ≡ err (index_response e))
          × (((publish_crate X A I T json crate_bytes s).1.storage ≡ s.storage)
              ⊎ ((f : StorageError) × (put_tarball json crate_bytes s.storage
                    ≡ (err f, (publish_crate X A I T json crate_bytes s).1.storage)))
              ⊎ (((put_tarball json crate_bytes s.storage).0 ≡ ok tt)
                  × ((publish_crate X A I T json crate_bytes s).1.storage
                      ≡ (delete_tarball json crate_bytes
                          (put_tarball json crate_bytes s.storage).1).1)))
    unfolding publish_crate store_tarball
    index_refuses json crate_bytes s e refused =
        let call = index_publish json crate_bytes s.index s.storage in
        (
          ground arith,
          elim (contract.refused (T.State × Bool) json (X.sha256 crate_bytes)
              (end_step json crate_bytes) s.index call.1.0 (s.storage, false) call.1.1 e
              (ground arith)) [
                | inl same ↦ inl (ground (arith, same))
                | inr ran ↦ elim (Result-cases (put_tarball json crate_bytes s.storage).0) [
                  | inl (_, done) ↦ inr (inr (done, ground (arith, ran)))
                  | inr (f, failed) ↦ inr (inl (f, ground (arith, ran)))
                ]
              ],
        )

  -- Either a publish request is refused and leaves index and storage as they were, or it has a
  -- token, a well-formed body with JSON that is read, and the consent of the auth provider, and
  -- goes on as `publish_crate`.
  pub publish_gate :
      (headers : HeaderMap) (body : Bytes) (s : Service A I T)
      → ((e : Rejection) × ((publish X A I T headers body s).0 ≡ err e)
          × ((publish X A I T headers body s).1.index ≡ s.index)
          × ((publish X A I T headers body s).1.storage ≡ s.storage))
        ⊎ ((token : Text) × (json : Publish S) × (json_bytes : Bytes) × (crate_bytes : Bytes)
            × (rest : Bytes) × (required_token auth_token_missing A headers ≡ ok token)
            × (parse_body body ≡ ok (json_bytes, crate_bytes, rest))
            × (X.publish_from_slice json_bytes ≡ some json)
            × ((A.publish token json.name s.auth).0 ≡ ok tt)
            × (publish X A I T headers body s
                ≡ publish_crate X A I T json crate_bytes
                    (record s { auth = (A.publish token json.name s.auth).1 })))
  unfolding publish publish_authorized
  publish_gate headers body s = elim (Result-cases (required_token auth_token_missing A headers)) [
    | inr (e, none_given) ↦ inl (e, ground arith, ground arith, ground arith)
    | inl (token, given) ↦ elim (Result-cases (parse_body body)) [
      | inr (e, malformed) ↦ inl (e, ground arith, ground arith, ground arith)
      | inl ((json_bytes, crate_bytes, rest), parsed) ↦
          elim (Option-cases (X.publish_from_slice json_bytes)) [
            | inl bad ↦
                inl
                  (plain 400 (codes "JSON parsing error"), ground arith, ground arith, ground arith)
            | inr (json, good) ↦ elim (Result-cases (A.publish token json.name s.auth).0) [
              | inr (e, refused) ↦
                  inl (auth_response X.error_id e, ground arith, ground arith, ground arith)
              | inl (_, granted) ↦ inr (
                token,
                json,
                json_bytes,
                crate_bytes,
                rest,
                given,
                parsed,
                good,
                granted,
                ground arith,
              )
            ]
          ]
    ]
  ]
