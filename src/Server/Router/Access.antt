-- ===== src/Server/Router/Access.antt =====
-- What the server does for whom, whatever request it gets (crates/freighter-server/src).
use freighter.Base.{
  ℕ, ◌≡◌, ◌⊎◌, inl, inr, refl, true, Option, none, List, [], Text, ok, err, Result, arith,
  Option-cases, Bytes, rsplit_once,
}
use freighter.Base.Acts.{Act}
use freighter.Types.Error.{Rejection, plain}
use freighter.Types.Index.{Semver}
use freighter.Types.IndexProvider.{IndexProvider}
use freighter.Storage.Crates.{StorageProvider}
use freighter.Auth.Provider.{AuthProvider, HeaderMap}
use freighter.Server.Service.{Platform, Service, required_token, auth_token_missing}
use freighter.Server.Routes.{Endpoint, router}
use freighter.Server.Router.{
  Axum, Request, found, handle, serve, handle_api_fallback, respond, extract, Selected-cases,
  handle_index_fallback, handle_downloads_fallback, ListQuery,
}
use freighter.Server.Publish.{publish}
use freighter.Server.Api.{yank, unyank, list_owners, add_owners, remove_owners, search, list}
use freighter.Server.Index.{config, get_sparse_meta, login_required}
use freighter.Server.Downloads.{serve_crate}
use freighter.Server.Root.{Timing, handle_global_fallback}

-- The endpoints that answer without a token.
abbrev pub IsOpen : Endpoint → Type 0
IsOpen Endpoint.register = Unit
IsOpen Endpoint.registration = Unit
IsOpen Endpoint.healthcheck = Unit
IsOpen Endpoint.root_page = Unit
IsOpen _ = ⊥

-- An action that fails, and changes nothing.
abbrev Fails : {St R : Type 0} → Act St Rejection R → St → Type 0
Fails m s = (e : Rejection) × (m s ≡ (err e, s))

extract-Fails :
    {St B R : Type 0} (r : Result Rejection B) (k : B → Act St Rejection R) (s : St)
    → ((b : B) → Fails (k b) s)
    → Fails (extract r k) s
unfolding extract
extract-Fails (err e) k s h = (e, refl)
extract-Fails (ok b) k s h = h b

respond-Fails :
    {St C R : Type 0} (f : C → R) (m : Act St Rejection C) (s : St)
    → Fails m s
    → Fails (respond f m) s
unfolding respond
respond-Fails f m s (e, failed) = (e, ground (arith, failed))

refused_without_token :
    (missing : Text) (A : AuthProvider) (headers : HeaderMap)
    → A.token_from_headers headers ≡ ok none
    → required_token missing A headers ≡ err (plain 401 missing)
unfolding required_token
refused_without_token missing A headers h = ground (arith, h)

module _ {S : Semver} (X : Platform S) (A : AuthProvider) (I : IndexProvider S)
    (T : StorageProvider) (headers : HeaderMap) (s : Service A I T)
    (h : A.token_from_headers headers ≡ ok none) where
  missing : (text : Text) → required_token text A headers ≡ err (plain 401 text)
  missing text = refused_without_token text A headers h

  yank-Fails : (name : Text) (version : S.Version) → Fails (yank X A I T headers name version) s
  unfolding yank
  yank-Fails name version =
      (plain 401 auth_token_missing, ground (arith, missing auth_token_missing))

  unyank-Fails : (name : Text) (version : S.Version) → Fails (unyank X A I T headers name version) s
  unfolding unyank
  unyank-Fails name version =
      (plain 401 auth_token_missing, ground (arith, missing auth_token_missing))

  list_owners-Fails : (name : Text) → Fails (list_owners X A I T headers name) s
  unfolding list_owners
  list_owners-Fails name =
      (plain 401 auth_token_missing, ground (arith, missing auth_token_missing))

  add_owners-Fails :
      (name : Text) (users : List Text) → Fails (add_owners X A I T headers name users) s
  unfolding add_owners
  add_owners-Fails name users =
      (plain 401 auth_token_missing, ground (arith, missing auth_token_missing))

  remove_owners-Fails :
      (name : Text) (users : List Text) → Fails (remove_owners X A I T headers name users) s
  unfolding remove_owners
  remove_owners-Fails name users =
      (plain 401 auth_token_missing, ground (arith, missing auth_token_missing))

  publish-Fails : (body : Bytes) → Fails (publish X A I T headers body) s
  unfolding publish
  publish-Fails body = (plain 401 auth_token_missing, ground (arith, missing auth_token_missing))

  module _ (locked : s.config.auth_required ≡ true) where
    search-Fails : (q : Text) (per_page : Option ℕ) → Fails (search X A I T headers q per_page) s
    unfolding search
    search-Fails q per_page =
        (plain 401 auth_token_missing, ground (arith, missing auth_token_missing))

    list-Fails : (query : ListQuery) → Fails (list X A I T headers query) s
    unfolding list
    list-Fails query = (plain 401 [], ground (arith, missing []))

    config-Fails : Fails (config X A I T headers) s
    unfolding config
    config-Fails =
        (plain 401 (login_required X A I T), ground (arith, missing (login_required X A I T)))

    get_sparse_meta-Fails : (path : Text) → Fails (get_sparse_meta X A I T headers path) s
    unfolding get_sparse_meta
    get_sparse_meta-Fails path = elim (Option-cases (rsplit_once b'/' path)) [
      | inl bare ↦ (plain 400 [], ground arith)
      | inr (parts, split) ↦ (plain 401 [], ground (arith, missing []))
    ]

    serve_crate-Fails :
        (name : Text) (version : S.Version) → Fails (serve_crate X A I T headers name version) s
    unfolding serve_crate
    serve_crate-Fails name version = (plain 401 [], ground (arith, missing []))

module _ {S : Semver} (X : Platform S) (W : Axum S) (A : AuthProvider) (I : IndexProvider S)
    (T : StorageProvider) (page : Text) (t : Timing A I T) where
  handle_no_token :
      (e : Endpoint) (ps : List Text) (req : Request) (s : Service A I T)
      → s.config.auth_required ≡ true
      → A.token_from_headers req.headers ≡ ok none
      → Fails (handle X W A I T page t e ps req) s ⊎ IsOpen e
  unfolding handle
  handle_no_token Endpoint.publish ps req s locked h =
      inl (
        extract-Fails _ _ s
          λ body. respond-Fails _ _ s (publish-Fails X A I T req.headers s h body))
  handle_no_token Endpoint.yank ps req s locked h = inl (
      extract-Fails _ _ s
        λ (name, version). respond-Fails _ _ s (yank-Fails X A I T req.headers s h name version))
  handle_no_token Endpoint.unyank ps req s locked h = inl (
      extract-Fails _ _ s
        λ (name, version). respond-Fails _ _ s (unyank-Fails X A I T req.headers s h name version))
  handle_no_token Endpoint.list_owners ps req s locked h = inl (
      extract-Fails _ _ s
        λ name. respond-Fails _ _ s (list_owners-Fails X A I T req.headers s h name))
  handle_no_token Endpoint.remove_owners ps req s locked h = inl (
      extract-Fails _ _ s λ name.
        extract-Fails _ _ s
          λ users. respond-Fails _ _ s (remove_owners-Fails X A I T req.headers s h name users))
  handle_no_token Endpoint.add_owners ps req s locked h = inl (
      extract-Fails _ _ s λ name.
        extract-Fails _ _ s
          λ users. respond-Fails _ _ s (add_owners-Fails X A I T req.headers s h name users))
  handle_no_token Endpoint.search ps req s locked h = inl (
      extract-Fails _ _ s λ (q, per_page).
        respond-Fails _ _ s (search-Fails X A I T req.headers s h locked q per_page))
  handle_no_token Endpoint.list ps req s locked h = inl (
      extract-Fails _ _ s
        λ query. respond-Fails _ _ s (list-Fails X A I T req.headers s h locked query))
  handle_no_token Endpoint.config ps req s locked h =
      inl (respond-Fails _ _ s (config-Fails X A I T req.headers s h locked))
  handle_no_token Endpoint.get_sparse_meta ps req s locked h = inl (
      extract-Fails _ _ s
        λ path. respond-Fails _ _ s (get_sparse_meta-Fails X A I T req.headers s h locked path))
  handle_no_token Endpoint.serve_crate ps req s locked h = inl (
      extract-Fails _ _ s λ (name, version).
        respond-Fails _ _ s (serve_crate-Fails X A I T req.headers s h locked name version))
  handle_no_token Endpoint.register ps req s locked h = inr tt
  handle_no_token Endpoint.registration ps req s locked h = inr tt
  handle_no_token Endpoint.healthcheck ps req s locked h = inr tt
  handle_no_token Endpoint.root_page ps req s locked h = inr tt
  handle_no_token Endpoint.api_fallback ps req s locked h = inl (handle_api_fallback, refl)
  handle_no_token Endpoint.index_fallback ps req s locked h = inl (handle_index_fallback, refl)
  handle_no_token Endpoint.downloads_fallback ps req s locked h =
      inl (handle_downloads_fallback, refl)
  handle_no_token Endpoint.global_fallback ps req s locked h = inl (handle_global_fallback, refl)

  -- On a server that requires auth, a request whose headers hold no token fails and changes
  -- nothing, unless it is routed to the registration of an account or its page, the health check,
  -- or the root page.
  pub serve_no_token :
      (req : Request) (s : Service A I T)
      → s.config.auth_required ≡ true
      → A.token_from_headers req.headers ≡ ok none
      → ((e : Rejection) × (serve X W A I T page t req s ≡ (err e, s)))
        ⊎ ((e : Endpoint) × (ps : List Text) × (W.select router req.method req.path ≡ found e ps)
            × IsOpen e)
  unfolding serve
  serve_no_token req s locked h = elim (Selected-cases (W.select router req.method req.path)) [
    | inr unfit ↦ inl (plain 405 [], ground arith)
    | inl (e, ps, fit) ↦ elim (handle_no_token e ps req s locked h) [
      | inl (r, failed) ↦ inl (r, ground (arith, failed))
      | inr free ↦ inr (e, ps, fit, free)
    ]
  ]
