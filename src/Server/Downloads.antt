-- ===== src/Server/Downloads.antt =====
-- `serve_crate` of crates/freighter-server/src/downloads.rs.
use freighter.Base.{
  Bool-cases, ◌≡◌, ◌⊎◌, inl, inr, false, Text, [], ok, err, Result-cases, arith, if◌then◌else◌,
}
use freighter.Base.Acts.{Act}
use freighter.Types.Error.{Rejection, index_response, storage_response}
use freighter.Types.Index.{Semver, CrateVersionExists}
use freighter.Types.IndexProvider.{IndexProvider}
use freighter.Storage.Metadata.{FileResponse}
use freighter.Storage.Crates.{StorageProvider}
use freighter.Auth.Provider.{AuthProvider, HeaderMap}
use freighter.Server.Service.{Platform, Service, required_token}
use freighter.Server.Api.{with_auth}

module _ {S : Semver} (X : Platform S) (A : AuthProvider) (I : IndexProvider S)
    (T : StorageProvider) where
  -- The handler behind its check of the token.
  unfoldable pub send_crate : Text → S.Version → Act (Service A I T) Rejection FileResponse
  send_crate name version s = elim (I.confirm_existence name version s.index) [
    | err e ↦ (err (index_response e), s)
    | ok expected_crate ↦
        let (res, storage) =
          T.pull_crate name (S.version_to_string version) expected_crate.tarball_checksum
            s.storage in
        (
          elim res [ err e ↦ err (storage_response e) | ok file ↦ ok file ],
          record s { storage = storage },
        )
  ]

  unfoldable pub serve_crate :
      HeaderMap → Text → S.Version → Act (Service A I T) Rejection FileResponse
  serve_crate headers name version s =
      if s.config.auth_required
      then (elim (required_token [] A headers) [
        | err e ↦ (err e, s)
        | ok token ↦
            with_auth X A I T (A.auth_crate_download token name s.auth)
              (λ _. send_crate name version) s
      ])
      else send_crate name version s

  -- What a `send_crate` that succeeds has read.
  abbrev pub Sent : Text → S.Version → FileResponse → Service A I T → Service A I T → Type 0
  Sent name version file s s' =
      (there : CrateVersionExists) × (I.confirm_existence name version s.index ≡ ok there)
      × (T.pull_crate name (S.version_to_string version) there.tarball_checksum s.storage
          ≡ (ok file, s'.storage))
      × (s'.index ≡ s.index)

  send_crate_ok :
      (name : Text) (version : S.Version) (s s' : Service A I T) (file : FileResponse)
      → send_crate name version s ≡ (ok file, s')
      → Sent name version file s s'
  unfolding send_crate
  send_crate_ok name version s s' file h =
      elim (Result-cases (I.confirm_existence name version s.index)) [
        | inr (e, absent) ↦ absurd (ground arith)
        | inl (there, found) ↦
            let pulled =
              T.pull_crate name (S.version_to_string version) there.tarball_checksum s.storage in
            elim (Result-cases pulled.0) [
              | inr (e, failed) ↦ absurd (ground arith)
              | inl (res, done) ↦ (there, found, ground arith, ground arith)
            ]
      ]

  -- A download that succeeds gives the file that the storage has under the digest which the index
  -- confirms for the version, and leaves the index as it was; and either no auth is required, or
  -- the headers hold a token that the auth provider accepts for downloads of the crate.
  pub serve_crate_ok :
      (headers : HeaderMap) (name : Text) (version : S.Version) (s s' : Service A I T)
      (file : FileResponse)
      → serve_crate headers name version s ≡ (ok file, s')
      → Sent name version file s s'
        × ((s.config.auth_required ≡ false)
            ⊎ ((token : Text) × (required_token [] A headers ≡ ok token)
                × ((A.auth_crate_download token name s.auth).0 ≡ ok tt)))
  unfolding serve_crate
  serve_crate_ok headers name version s s' file h = elim (Bool-cases s.config.auth_required) [
    | inr open_access ↦ (send_crate_ok name version s s' file (ground arith), inl open_access)
    | inl needed ↦ elim (Result-cases (required_token [] A headers)) [
      | inr (e, refused) ↦ absurd (ground arith)
      | inl (token, given) ↦ elim (Result-cases (A.auth_crate_download token name s.auth).0) [
        | inr (e, refused) ↦ absurd (ground arith)
        | inl (_, granted) ↦ (
          send_crate_ok name version
              (record s { auth = (A.auth_crate_download token name s.auth).1 }) s' file
              (ground arith),
          inr (token, given, granted),
        )
      ]
    ]
  ]
