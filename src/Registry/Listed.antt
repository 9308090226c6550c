-- ===== src/Registry/Listed.antt =====
-- A publish from the client to the file index, through network, server and index.
use freighter.Base.{
  ℕ, ◌≡◌, ◌≤◌, ◌<◌, true, false, some, List, [], ◌∷◌, ◌++◌, Text, Bytes, ok, length, arith,
  Result-cases, inl, inr,
}
use freighter.Types.Index.{Semver, CompletedPublication, Publish, CrateVersion}
use freighter.Types.IndexProvider.{IndexProvider}
use freighter.Types.Convert.{release_of_publish}
use freighter.Storage.Crates.{StorageProvider}
use freighter.Storage.Metadata.{MetadataStorage, IsStorage}
use freighter.Auth.Provider.{AuthProvider, HeaderMap, default_token_from_headers}
use freighter.FsIndex.Meta.{Json}
use freighter.FsIndex.Meta.RoundTrip.{IsJson}
use freighter.FsIndex.Provider.{get_sparse_entry, has_version}
use freighter.FsIndex.Provider.Contract.{fs_index, fs_index-RunsEndStep}
use freighter.FsIndex.Provider.Publishing.{publish_ok, listed}
use freighter.FsIndex.Provider.Search.{Fetched}
use freighter.Server.Service.{Platform, Service}
use freighter.Server.Body.{publish_buffer}
use freighter.Server.Router.{Axum}
use freighter.Server.Publish.{publish_authorized, publish_crate, store_tarball}
use freighter.Server.Publish.Outcome.{index_publish, put_tarball, index_accepts}
use freighter.Server.Root.{Timing}
use freighter.Client.{publish as client_request, Client}
use freighter.Client.Wire.{Http, scheme}
use freighter.Registry.{Network, IsAxum, IsNetwork, connected, is_visible}
use freighter.Registry.Publishing.{new_path}
use freighter.Registry.Outcome.{client_publish}

module _ {S : Semver} (X : Platform S) (A : AuthProvider) (I : IndexProvider S)
    (T : StorageProvider) where
  -- A publish that the server accepts has the consent of the auth provider and of the index.
  authorized_parts :
      (token : Text) (p : Publish S) (tarball : Bytes) (s s' : Service A I T)
      (done : CompletedPublication)
      → publish_authorized X A I T token p tarball s ≡ (ok done, s')
      → ((A.publish token p.name s.auth).0 ≡ ok tt)
        × (publish_crate X A I T p tarball (record s { auth = (A.publish token p.name s.auth).1 })
            ≡ (ok done, s'))
  unfolding publish_authorized
  authorized_parts token p tarball s s' done h =
      elim (Result-cases (A.publish token p.name s.auth).0) [
        | inl (_, granted) ↦ (granted, ground arith)
        | inr (e, refused) ↦ absurd (ground arith)
      ]

  accepted_parts :
      (p : Publish S) (tarball : Bytes) (s s' : Service A I T) (done : CompletedPublication)
      → publish_crate X A I T p tarball s ≡ (ok done, s')
      → (r : CompletedPublication) × ((index_publish X A I T p tarball s.index s.storage).0 ≡ ok r)
        × (s'.index ≡ (index_publish X A I T p tarball s.index s.storage).1.0)
  unfolding publish_crate
  accepted_parts p tarball s s' done h =
      elim (Result-cases (index_publish X A I T p tarball s.index s.storage).0) [
        | inl (r, accepted) ↦ (r, accepted, ground arith)
        | inr (e, refused) ↦ absurd (ground arith)
      ]

module _ {S : Semver} (J : Json S) (F : MetadataStorage) (now : F.State → ℕ)
    (ended : List (Fetched S) → List (Fetched S)) (X : Platform S) (A : AuthProvider)
    (T : StorageProvider) where
  -- The publish of `p` is agreed to and listed, and its tarball stored.
  abbrev pub Published :
      Text
      → Publish S
      → Bytes
      → Service A (fs_index J F now ended) T
      → Service A (fs_index J F now ended) T
      → Type 0
  Published token p tarball s s' =
      ((A.publish token p.name s.auth).0 ≡ ok tt)
      × (put_tarball X A (fs_index J F now ended) T p tarball s.storage ≡ (ok tt, s'.storage))
      × ((old : List (CrateVersion S)) × (listed (get_sparse_entry J F p.name s.index) ≡ ok old)
          × (has_version p.vers old ≡ false)
          × (listed (get_sparse_entry J F p.name s'.index)
              ≡ ok (old ++ release_of_publish p (X.sha256 tarball) ∷ [])))

  authorized-Published :
      (token : Text) (p : Publish S) (tarball : Bytes) (s s' : Service A (fs_index J F now ended) T)
      (done : CompletedPublication)
      → IsJson J
      → IsStorage F
      → publish_authorized X A (fs_index J F now ended) T token p tarball s ≡ (ok done, s')
      → Published token p tarball s s'
  authorized-Published token p tarball s s' done json files h =
      let I = fs_index J F now ended in
      let (granted, ran) = authorized_parts X A I T token p tarball s s' done h in
      let s1 : Service A I T = record s { auth = (A.publish token p.name s.auth).1 } in
      let (r, accepted, same) = accepted_parts X A I T p tarball s1 s' done ran in
      let call = index_publish X A I T p tarball s.index s.storage in
      let stored =
        index_accepts X A I T (fs_index-RunsEndStep J F now ended) p tarball s1 r accepted in
      let (old, before, fresh, _, after) =
        publish_ok J F json files p (X.sha256 tarball)
          (store_tarball T p.name (S.version_to_string p.vers) tarball (X.sha256 tarball)) s.index
          call.1.0 (s.storage, false) call.1.1 r (ground (arith, accepted)) in
      (granted, ground (arith, stored.1, ran), (old, before, fresh, ground (arith, after, same)))

  module _ (H : Http S) (N : Network S) (W : Axum S) (page : Text)
      (t : Timing A (fs_index J F now ended) T) (p : Publish S) (tarball serialized : Bytes)
      (token : Text) (c : Client (connected H N X W A (fs_index J F now ended) T page t))
      (axum : IsAxum W) (net : IsNetwork N H X c.config.api)
      (reads : (headers : HeaderMap)
        → A.token_from_headers headers ≡ default_token_from_headers headers)
      (visible : is_visible token ≡ true) (written : H.publish_to_vec p ≡ ok serialized)
      (has_token : c.token ≡ some token) (is_header : H.is_header_value token ≡ true)
      (is_url : H.is_url (scheme c.config.api ++ (c.config.api ++ new_path)) ≡ true)
      (filled : 1 ≤ length tarball)
      (small : length (publish_buffer serialized tarball) ≤ c.world.config.crate_size_limit)
      (bounded : c.world.config.crate_size_limit < 4294967296) (json : IsJson J)
      (files : IsStorage F) where
    -- With an axum, a network, a storage of files and JSON that keep their promises, and an auth
    -- provider that reads tokens the default way: if a client with a token publishes a tarball
    -- that is not empty, in a body within the limit of the server (which is below 2^32), and
    -- `Client::publish` returns success, then the auth provider has allowed the publish under that
    -- token, the index listed what it listed before without the version and now lists the release
    -- of this very request behind it, and the storage is as a successful `put_crate` of the
    -- tarball left it.
    pub client_publish_listed :
        (c' : Client (connected H N X W A (fs_index J F now ended) T page t))
        (done : CompletedPublication)
        → client_request p tarball c ≡ (ok done, c')
        → Published token p tarball c.world c'.world
    client_publish_listed c' done h =
        let I = fs_index J F now ended in
        let call = publish_authorized X A I T token p tarball c.world in
        let seen =
          client_publish H N X W A I T page t p tarball serialized token c axum net reads visible
            written has_token is_header is_url filled small bounded in
        elim (Result-cases call.0) [
          | inl (r, accepted) ↦
              authorized-Published token p tarball c.world c'.world r json files
                (ground (arith, seen, h, accepted))
          | inr (e, refused) ↦ absurd (ground (arith, seen, h, refused))
        ]
