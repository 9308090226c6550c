-- ===== src/Server/Router/Sparse.antt =====
-- The request of the client for the entries of a crate (`fetch_index` of
-- crates/freighter-client/src/lib.rs), as the server answers it.
use freighter.Base.{ℕ, ◌≡◌, true, false, some, [], ◌∷◌, ◌++◌, Text, codes, ok, all, eqb, arith}
use freighter.Types.Index.{Semver}
use freighter.Types.IndexProvider.{IndexProvider}
use freighter.Storage.Crates.{StorageProvider}
use freighter.Auth.Provider.{AuthProvider}
use freighter.Server.Service.{Platform, Service}
use freighter.Server.Routes.{Method, Endpoint, router}
use freighter.Server.Router.{Axum, Request, Reply, found, handle, serve, extract, respond}
use freighter.Server.Index.{sparse_meta}
use freighter.Server.Client.{
  fetch_path, is_name_char, is_plain_path, name_no_slash, fetch_path_plain,
  get_sparse_meta-fetch_path,
}
use freighter.Server.Root.{Timing}

-- `axum` at the route `/*crate_index_path` below `/index`: it takes a path without a dot (so not
-- `config.json`) that does not begin with a slash, and the extractor, which decodes `%`, gives a path
-- without `%` as it is.
pub record RoutesIndex {S : Semver} (W : Axum S) : Type 0 where
  pub rest_routed :
      (c : ℕ) (rest : Text)
      → eqb c b'/' ≡ false
      → is_plain_path (c ∷ rest) ≡ true
      → W.select router Method.get (codes "/index/" ++ c ∷ rest)
        ≡ found Endpoint.get_sparse_meta ((c ∷ rest) ∷ [])
  pub plain_decoded : (path : Text) → is_plain_path path ≡ true → W.path_text (path ∷ []) ≡ ok path

module _ {S : Semver} (X : Platform S) (W : Axum S) (A : AuthProvider) (I : IndexProvider S)
    (T : StorageProvider) (page : Text) (t : Timing A I T) where
  -- If `axum` routes plain paths below `/index` to `get_sparse_meta` and hands them on as they
  -- are, and no auth is required, then for a name of letters, digits, dashes and underscores a GET
  -- of `/index/` and the path that `fetch_index` makes is answered with the entries of the very
  -- name, and changes nothing.
  pub serve-fetch_path :
      (n path : Text) (req : Request) (s : Service A I T)
      → RoutesIndex W
      → all is_name_char n ≡ true
      → fetch_path n ≡ some path
      → req.method ≡ Method.get
      → req.path ≡ codes "/index/" ++ path
      → s.config.auth_required ≡ false
      → serve X W A I T page t req s
        ≡ respond Reply.entries (λ s. (sparse_meta X A I T n s.index, s)) s
  unfolding serve handle extract respond
  serve-fetch_path n path req s axum chars asked get at_index open_access =
      let (c, rest, same, first, plain) = fetch_path_plain n path chars asked in
      let selected : W.select router req.method req.path
          ≡ found Endpoint.get_sparse_meta (path ∷ []) =
        rw (get, at_index, same) (axum.rest_routed c rest first plain) in
      let decoded : W.path_text (path ∷ []) ≡ ok path =
        rw same (axum.plain_decoded (c ∷ rest) plain) in
      let answered =
        get_sparse_meta-fetch_path X A I T req.headers n path s (name_no_slash n chars) asked
          open_access in
      ground (arith, selected, decoded, answered)
