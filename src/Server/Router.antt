-- ===== src/Server/Router.antt =====
-- The server as a whole: crates/freighter-server/src/lib.rs puts the handlers behind `axum`, which
-- finds the route of a request and extracts the arguments of its handler.
pub mod Access
pub mod Effects
pub mod Writes
pub mod Sparse
use freighter.Base.{
  ◌≡◌, ◌⊎◌, inl, inr, refl, ℕ, Option, List, [], Text, codes, Bytes, Result, ok, err,
}
use freighter.Base.Acts.{Act}
use freighter.Types.Error.{Rejection, plain}
use freighter.Types.Index.{
  Semver, CompletedPublication, SearchResults, SparseEntries, ListAllCrateEntry,
}
use freighter.Types.IndexProvider.{IndexProvider, ListQuery}
use freighter.Storage.Crates.{StorageProvider}
use freighter.Storage.Metadata.{FileResponse}
use freighter.Auth.Provider.{AuthProvider, HeaderMap}
use freighter.Server.Service.{Platform, Service}
use freighter.Server.Routes.{Method, Endpoint, Router, router}
use freighter.Server.Publish.{publish}
use freighter.Server.Api.{
  YankResult, OwnerList, ChangedOwnership, yank, unyank, list_owners, add_owners, remove_owners,
  register, search, list,
}
use freighter.Server.Index.{RegistryConfig, config, get_sparse_meta}
use freighter.Server.Downloads.{serve_crate}
use freighter.Server.Root.{Timing, healthcheck, registration, root_page, handle_global_fallback}

pub record Request : Type 0 where
  pub method : Method
  pub path : Text
  pub query : Text
  pub headers : HeaderMap
  pub body : Bytes

-- What `axum` makes of a request: a handler with the segments that its parameters stand for, or the
-- answer that the path has no route for the method.
pub data Selected : Type 0 where
  found : Endpoint → List Text → Selected
  method_not_allowed : Selected

pub Selected-cases :
    (x : Selected)
    → ((e : Endpoint) × (ps : List Text) × (x ≡ found e ps)) ⊎ (x ≡ method_not_allowed)
Selected-cases (found e ps) = inl (e, ps, refl)
Selected-cases method_not_allowed = inr refl

-- `axum`: the choice of a route, and the extractors `Path`, `Bytes` under a limit, `Json`, `Form` and
-- `Query`, each with its refusals.
pub record Axum (S : Semver) : Type 0 where
  pub select : Router → Method → Text → Selected
  pub path_text : List Text → Result Rejection Text
  pub path_version : List Text → Result Rejection (Text × S.Version)
  pub bytes : ℕ → Bytes → Result Rejection Bytes
  pub json_users : ℕ → HeaderMap → Bytes → Result Rejection (List Text)
  pub form_username : ℕ → HeaderMap → Bytes → Result Rejection Text
  pub search_query : Text → Result Rejection (Text × Option ℕ)
  pub list_query : Text → Result Rejection ListQuery

-- The body of a successful response.
pub data Reply (S : Semver) : Type 0 where
  completed : CompletedPublication → Reply S
  yanked : YankResult → Reply S
  owners : OwnerList → Reply S
  changed : ChangedOwnership → Reply S
  text html : Text → Reply S
  results : SearchResults S → Reply S
  registry : RegistryConfig → Reply S
  entries : SparseEntries S → Reply S
  file : FileResponse → Reply S
  listing : List (ListAllCrateEntry S) → Reply S

abbrev pub handle_api_fallback : Rejection
handle_api_fallback = plain 404 (codes "Freighter: Invalid URL for the crates.io API endpoint")

abbrev pub handle_index_fallback : Rejection
handle_index_fallback = plain 404 (codes "Freighter: Invalid URL for the crate index endpoint")

abbrev pub handle_downloads_fallback : Rejection
handle_downloads_fallback =
    plain 404 (codes "Freighter: Invalid URL for the crate download endpoint")

-- A handler behind an extractor that may refuse the request.
unfoldable pub extract :
    {St B R : Type 0} → Result Rejection B → (B → Act St Rejection R) → Act St Rejection R
extract (err e) k s = (err e, s)
extract (ok b) k s = k b s

-- The answer of a handler as a response.
unfoldable pub respond : {St C R : Type 0} → (C → R) → Act St Rejection C → Act St Rejection R
respond f m s = let (r, s') = m s in (elim r [ err e ↦ err e | ok c ↦ ok (f c) ], s')

module _ {S : Semver} (X : Platform S) (W : Axum S) (A : AuthProvider) (I : IndexProvider S)
    (T : StorageProvider) (page : Text) (t : Timing A I T) where
  -- The handler of an endpoint, with its extractors. `page` is static/register.html, and `t` how the
  -- checks of a health check come out.
  unfoldable pub handle : Endpoint → List Text → Request → Act (Service A I T) Rejection (Reply S)
  handle Endpoint.publish ps req s =
      extract (W.bytes s.config.crate_size_limit req.body)
        (λ body. respond Reply.completed (publish X A I T req.headers body)) s
  handle Endpoint.yank ps req s =
      extract (W.path_version ps)
        (λ (name, version). respond Reply.yanked (yank X A I T req.headers name version)) s
  handle Endpoint.unyank ps req s =
      extract (W.path_version ps)
        (λ (name, version). respond Reply.yanked (unyank X A I T req.headers name version)) s
  handle Endpoint.list_owners ps req s =
      extract (W.path_text ps) (λ name. respond Reply.owners (list_owners X A I T req.headers name))
        s
  handle Endpoint.remove_owners ps req s =
      extract (W.path_text ps)
        (λ name.
          extract (W.json_users s.config.crate_size_limit req.headers req.body)
            (λ users. respond Reply.changed (remove_owners X A I T req.headers name users)))
        s
  handle Endpoint.add_owners ps req s =
      extract (W.path_text ps)
        (λ name.
          extract (W.json_users s.config.crate_size_limit req.headers req.body)
            (λ users. respond Reply.changed (add_owners X A I T req.headers name users)))
        s
  handle Endpoint.register ps req s =
      extract (W.form_username s.config.crate_size_limit req.headers req.body)
        (λ username. respond Reply.text (register X A I T username)) s
  handle Endpoint.search ps req s =
      extract (W.search_query req.query)
        (λ (q, per_page). respond Reply.results (search X A I T req.headers q per_page)) s
  handle Endpoint.config ps req s = respond Reply.registry (config X A I T req.headers) s
  handle Endpoint.get_sparse_meta ps req s =
      extract (W.path_text ps)
        (λ path. respond Reply.entries (get_sparse_meta X A I T req.headers path)) s
  handle Endpoint.serve_crate ps req s =
      extract (W.path_version ps)
        (λ (name, version). respond Reply.file (serve_crate X A I T req.headers name version)) s
  handle Endpoint.registration ps req s = (ok (Reply.html (registration A page)), s)
  handle Endpoint.list ps req s =
      extract (W.list_query req.query)
        (λ query. respond Reply.listing (list X A I T req.headers query)) s
  handle Endpoint.healthcheck ps req s = respond Reply.text (healthcheck A I T t) s
  handle Endpoint.root_page ps req s = (ok (Reply.text (root_page s.config)), s)
  handle Endpoint.api_fallback ps req s = (err handle_api_fallback, s)
  handle Endpoint.index_fallback ps req s = (err handle_index_fallback, s)
  handle Endpoint.downloads_fallback ps req s = (err handle_downloads_fallback, s)
  handle Endpoint.global_fallback ps req s = (err handle_global_fallback, s)

  -- A request to the server. What the layers add to a response and count is left out, and a panic of
  -- a handler is a response with status 500.
  unfoldable pub serve : Request → Act (Service A I T) Rejection (Reply S)
  serve req s = elim (W.select router req.method req.path) [
    | found e ps ↦ handle e ps req s
    | method_not_allowed ↦ (err (plain 405 []), s)
  ]
