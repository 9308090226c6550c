-- ===== src/Server/Router/Effects.antt =====
-- What each handler may do to the index and the storage (crates/freighter-server/src).
use freighter.Base.{
  some, refl, ℕ, ◌≡◌, ◌⊎◌, inl, inr, Option, List, Text, Bytes, ok, err, Result, Result-cases,
  arith, Option-cases, rsplit_once,
}
use freighter.Base.Acts.{Act}
use freighter.Types.Error.{Rejection}
use freighter.Types.Index.{Semver, Publish}
use freighter.Types.IndexProvider.{IndexProvider, ListQuery}
use freighter.Storage.Crates.{StorageProvider}
use freighter.Auth.Provider.{AuthProvider, HeaderMap}
use freighter.Server.Service.{Platform, Service, required_token, auth_token_missing}
use freighter.Server.Router.{extract, respond}
use freighter.Server.Body.{parse_body}
use freighter.Server.Publish.{publish}
use freighter.Server.Publish.Outcome.{publish_gate}
use freighter.Server.Api.{
  yank, unyank, list_owners, add_owners, remove_owners, search, list, register,
}
use freighter.Server.Index.{config, get_sparse_meta}
use freighter.Server.Downloads.{serve_crate, send_crate}

module _ {S : Semver} (X : Platform S) (A : AuthProvider) (I : IndexProvider S)
    (T : StorageProvider) where
  -- A body of a publish, with a token that the auth provider accepts for the crate of the request.
  abbrev pub MayPublish : HeaderMap → Bytes → Service A I T → Type 0
  MayPublish headers body s =
      (token : Text) × (json : Publish S) × (json_bytes : Bytes) × (crate_bytes : Bytes)
      × (rest : Bytes) × (required_token auth_token_missing A headers ≡ ok token)
      × (parse_body body ≡ ok (json_bytes, crate_bytes, rest))
      × (X.publish_from_slice json_bytes ≡ some json)
      × ((A.publish token json.name s.auth).0 ≡ ok tt)

  -- A token that the auth provider accepts for a yank of the crate.
  abbrev pub MayYank : HeaderMap → Text → Service A I T → Type 0
  MayYank headers name s =
      (token : Text) × (required_token auth_token_missing A headers ≡ ok token)
      × ((A.auth_yank token name s.auth).0 ≡ ok tt)

  -- Index and storage are as before.
  abbrev pub Spares : {R : Type 0} → Act (Service A I T) Rejection R → Service A I T → Type 0
  Spares m s = ((m s).1.index ≡ s.index) × ((m s).1.storage ≡ s.storage)

  -- A property of the state after an action, which extractors and responses do not touch.
  module _ (P : Service A I T → Type 0) where
    pub extract_keeps :
        {B R : Type 0} (r : Result Rejection B) (k : B → Act (Service A I T) Rejection R)
        (s : Service A I T)
        → P s
        → ((b : B) → r ≡ ok b → P (k b s).1)
        → P (extract r k s).1
    unfolding extract
    extract_keeps (err e) k s same h = same
    extract_keeps (ok b) k s same h = h b refl

    pub respond_keeps :
        {C R : Type 0} (f : C → R) (m : Act (Service A I T) Rejection C) (s : Service A I T)
        → P (m s).1
        → P (respond f m s).1
    unfolding respond
    respond_keeps f m s h = h

  module _ (headers : HeaderMap) (s : Service A I T) where
    pub publish_writes :
        (body : Bytes) → Spares (publish X A I T headers body) s ⊎ MayPublish headers body s
    publish_writes body = elim (publish_gate X A I T headers body s) [
      | inl (e, _, index, storage) ↦ inl (index, storage)
      | inr (token, json, json_bytes, crate_bytes, rest, given, split, parsed, granted, _) ↦
          inr (token, json, json_bytes, crate_bytes, rest, given, split, parsed, granted)
    ]

    pub yank_writes :
        (name : Text) (version : S.Version)
        → (Spares (yank X A I T headers name version) s
            × Spares (unyank X A I T headers name version) s)
          ⊎ MayYank headers name s
    unfolding yank unyank
    yank_writes name version = elim (Result-cases (required_token auth_token_missing A headers)) [
      | inr (e, missing) ↦ inl ((ground arith, ground arith), (ground arith, ground arith))
      | inl (token, given) ↦ elim (Result-cases (A.auth_yank token name s.auth).0) [
        | inr (e, refused) ↦ inl ((ground arith, ground arith), (ground arith, ground arith))
        | inl (_, granted) ↦ inr (token, given, granted)
      ]
    ]

    pub list_owners-Spares : (name : Text) → Spares (list_owners X A I T headers name) s
    unfolding list_owners
    list_owners-Spares name = (ground arith, ground arith)

    pub add_owners-Spares :
        (name : Text) (users : List Text) → Spares (add_owners X A I T headers name users) s
    unfolding add_owners
    add_owners-Spares name users = (ground arith, ground arith)

    pub remove_owners-Spares :
        (name : Text) (users : List Text) → Spares (remove_owners X A I T headers name users) s
    unfolding remove_owners
    remove_owners-Spares name users = (ground arith, ground arith)

    pub search-Spares :
        (q : Text) (per_page : Option ℕ) → Spares (search X A I T headers q per_page) s
    unfolding search
    search-Spares q per_page = (ground arith, ground arith)

    pub list-Spares : (query : ListQuery) → Spares (list X A I T headers query) s
    unfolding list
    list-Spares query = (ground arith, ground arith)

    pub config-Spares : Spares (config X A I T headers) s
    unfolding config
    config-Spares = (ground arith, ground arith)

    pub get_sparse_meta-Spares : (path : Text) → Spares (get_sparse_meta X A I T headers path) s
    unfolding get_sparse_meta
    get_sparse_meta-Spares path = elim (Option-cases (rsplit_once b'/' path)) [
      | inl bare ↦ (ground arith, ground arith)
      | inr (parts, split) ↦ (ground arith, ground arith)
    ]

    pub serve_crate_spares :
        (name : Text) (version : S.Version)
        → (serve_crate X A I T headers name version s).1.index ≡ s.index
    unfolding serve_crate send_crate
    serve_crate_spares name version = ground arith

  pub register-Spares : (username : Text) (s : Service A I T) → Spares (register X A I T username) s
  unfolding register
  register-Spares username s = (ground arith, ground arith)
