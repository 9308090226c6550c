-- ===== src/Server/Router/Writes.antt =====
-- Which requests can change what the index and the storage hold (crates/freighter-server/src).
use freighter.Base.{refl, ◌≡◌, ◌⊎◌, inl, inr, List, Text, Bytes, ok, arith}
use freighter.Types.Index.{Semver}
use freighter.Types.IndexProvider.{IndexProvider}
use freighter.Storage.Crates.{StorageProvider}
use freighter.Auth.Provider.{AuthProvider}
use freighter.Server.Service.{Platform, Service}
use freighter.Server.Router.{
  Axum, Endpoint, Timing, handle, serve, Request, router, found, Selected-cases,
}
use freighter.Server.Router.Effects.{
  extract_keeps, respond_keeps, publish_writes, yank_writes, list_owners-Spares, add_owners-Spares,
  remove_owners-Spares, search-Spares, list-Spares, config-Spares, get_sparse_meta-Spares,
  serve_crate_spares, register-Spares, MayPublish, MayYank,
}

module _ {S : Semver} (X : Platform S) (A : AuthProvider) (I : IndexProvider S)
    (T : StorageProvider) where
  module _ (W : Axum S) where
    -- The request is a publish, a yank or an unyank that is allowed for the crate that it is about.
    abbrev pub MayWrite : Endpoint → List Text → Request → Service A I T → Type 0
    MayWrite e ps req s =
        ((e ≡ Endpoint.publish)
          × (body : Bytes) × (W.bytes s.config.crate_size_limit req.body ≡ ok body)
          × MayPublish X A I T req.headers body s)
        ⊎ (((e ≡ Endpoint.yank) ⊎ (e ≡ Endpoint.unyank))
            × (name : Text) × (version : S.Version) × (W.path_version ps ≡ ok (name, version))
            × MayYank X A I T req.headers name s)

  module _ (W : Axum S) (page : Text) (t : Timing A I T) where
    -- What a request for an endpoint may do to index and storage.
    abbrev Effect : Endpoint → List Text → Request → Service A I T → Service A I T → Type 0
    Effect e ps req s s' =
        ((s'.index ≡ s.index) × (s'.storage ≡ s.storage))
        ⊎ MayWrite W e ps req s
        ⊎ ((e ≡ Endpoint.serve_crate) × (s'.index ≡ s.index))
        ⊎ (e ≡ Endpoint.healthcheck)

    handle-Effect :
        (e : Endpoint) (ps : List Text) (req : Request) (s : Service A I T)
        → Effect e ps req s (handle X W A I T page t e ps req s).1
    unfolding handle
    handle-Effect Endpoint.publish ps req s =
        let P = Effect Endpoint.publish ps req s in
        extract_keeps X A I T P _ _ s (inl (refl, refl)) λ body read.
          respond_keeps X A I T P _ _ s (elim (publish_writes X A I T req.headers s body) [
            | inl spared ↦ inl spared
            | inr granted ↦ inr (inl (inl (refl, body, read, granted)))
          ])
    handle-Effect Endpoint.yank ps req s =
        let P = Effect Endpoint.yank ps req s in
        extract_keeps X A I T P _ _ s (inl (refl, refl)) λ (name, version) read.
          respond_keeps X A I T P _ _ s (elim (yank_writes X A I T req.headers s name version) [
            | inl (spared, _) ↦ inl spared
            | inr granted ↦ inr (inl (inr (inl refl, name, version, read, granted)))
          ])
    handle-Effect Endpoint.unyank ps req s =
        let P = Effect Endpoint.unyank ps req s in
        extract_keeps X A I T P _ _ s (inl (refl, refl)) λ (name, version) read.
          respond_keeps X A I T P _ _ s (elim (yank_writes X A I T req.headers s name version) [
            | inl (_, spared) ↦ inl spared
            | inr granted ↦ inr (inl (inr (inr refl, name, version, read, granted)))
          ])
    handle-Effect Endpoint.list_owners ps req s =
        let P = Effect Endpoint.list_owners ps req s in
        extract_keeps X A I T P _ _ s (inl (refl, refl)) λ name read.
          respond_keeps X A I T P _ _ s (inl (list_owners-Spares X A I T req.headers s name))
    handle-Effect Endpoint.remove_owners ps req s =
        let P = Effect Endpoint.remove_owners ps req s in
        extract_keeps X A I T P _ _ s (inl (refl, refl)) λ name read.
          extract_keeps X A I T P _ _ s (inl (refl, refl)) λ users read.
            respond_keeps X A I T P _ _ s
              (inl (remove_owners-Spares X A I T req.headers s name users))
    handle-Effect Endpoint.add_owners ps req s =
        let P = Effect Endpoint.add_owners ps req s in
        extract_keeps X A I T P _ _ s (inl (refl, refl)) λ name read.
          extract_keeps X A I T P _ _ s (inl (refl, refl)) λ users read.
            respond_keeps X A I T P _ _ s (inl (add_owners-Spares X A I T req.headers s name users))
    handle-Effect Endpoint.register ps req s =
        let P = Effect Endpoint.register ps req s in
        extract_keeps X A I T P _ _ s (inl (refl, refl))
          λ username read. respond_keeps X A I T P _ _ s (inl (register-Spares X A I T username s))
    handle-Effect Endpoint.search ps req s =
        let P = Effect Endpoint.search ps req s in
        extract_keeps X A I T P _ _ s (inl (refl, refl)) λ (q, per_page) read.
          respond_keeps X A I T P _ _ s (inl (search-Spares X A I T req.headers s q per_page))
    handle-Effect Endpoint.list ps req s =
        let P = Effect Endpoint.list ps req s in
        extract_keeps X A I T P _ _ s (inl (refl, refl)) λ query read.
          respond_keeps X A I T P _ _ s (inl (list-Spares X A I T req.headers s query))
    handle-Effect Endpoint.config ps req s =
        respond_keeps X A I T (Effect Endpoint.config ps req s) _ _ s
          (inl (config-Spares X A I T req.headers s))
    handle-Effect Endpoint.get_sparse_meta ps req s =
        let P = Effect Endpoint.get_sparse_meta ps req s in
        extract_keeps X A I T P _ _ s (inl (refl, refl)) λ path read.
          respond_keeps X A I T P _ _ s (inl (get_sparse_meta-Spares X A I T req.headers s path))
    handle-Effect Endpoint.serve_crate ps req s =
        let P = Effect Endpoint.serve_crate ps req s in
        extract_keeps X A I T P _ _ s (inl (refl, refl)) λ (name, version) read.
          respond_keeps X A I T P _ _ s
            (inr (inr (inl (refl, serve_crate_spares X A I T req.headers s name version))))
    handle-Effect Endpoint.healthcheck ps req s = inr (inr (inr refl))
    handle-Effect Endpoint.registration ps req s = inl (refl, refl)
    handle-Effect Endpoint.root_page ps req s = inl (refl, refl)
    handle-Effect Endpoint.api_fallback ps req s = inl (refl, refl)
    handle-Effect Endpoint.index_fallback ps req s = inl (refl, refl)
    handle-Effect Endpoint.downloads_fallback ps req s = inl (refl, refl)
    handle-Effect Endpoint.global_fallback ps req s = inl (refl, refl)

    -- A request leaves the index and the storage as they were; or it is routed to a publish, with
    -- a body within the limit that is taken apart, and its headers hold a token that the auth
    -- provider accepts for a publish of the crate that the body names; or it is routed to a yank
    -- or an unyank, and its headers hold a token that the auth provider accepts for a yank of the
    -- crate that the path names; or it is routed to a download and leaves the index as it was; or
    -- it is routed to the health check.
    pub serve_writes :
        (req : Request) (s : Service A I T)
        → (((serve X W A I T page t req s).1.index ≡ s.index)
            × ((serve X W A I T page t req s).1.storage ≡ s.storage))
          ⊎ ((e : Endpoint) × (ps : List Text) × (W.select router req.method req.path ≡ found e ps)
              × MayWrite W e ps req s)
          ⊎ ((ps : List Text) × (W.select router req.method req.path
                ≡ found Endpoint.serve_crate ps)
              × ((serve X W A I T page t req s).1.index ≡ s.index))
          ⊎ ((ps : List Text) × (W.select router req.method req.path
                ≡ found Endpoint.healthcheck ps))
    unfolding serve
    serve_writes req s = elim (Selected-cases (W.select router req.method req.path)) [
      | inr unfit ↦ inl (ground arith, ground arith)
      | inl (e, ps, fit) ↦ elim (handle-Effect e ps req s) [
        | inl (index, storage) ↦ inl (ground (arith, index), ground (arith, storage))
        | inr (inl granted) ↦ inr (inl (e, ps, fit, granted))
        | inr (inr (inl (crate, index))) ↦
            inr (inr (inl (ps, ground (arith, crate), ground (arith, index))))
        | inr (inr (inr health)) ↦ inr (inr (inr (ps, ground (arith, health))))
      ]
    ]
