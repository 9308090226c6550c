-- ===== src/Server/Routes.antt =====
-- The tables of routes of crates/freighter-server/src: `router` of lib.rs, `api_router` of api.rs,
-- `index_router` of index.rs and `downloads_router` of downloads.rs. Which route a request takes is up
-- to `axum`.
use freighter.Base.{List, [], ◌∷◌, Text, codes}

pub data Method : Type 0 where
  get put post delete : Method
  unrouted : Text → Method

-- The handlers. Each table has a fallback, for the paths below its prefix that no route fits.
pub data Endpoint : Type 0 where
  publish yank unyank list_owners remove_owners add_owners register search : Endpoint
  config get_sparse_meta serve_crate : Endpoint
  registration list healthcheck root_page : Endpoint
  api_fallback index_fallback downloads_fallback global_fallback : Endpoint

-- A path as `axum` reads it: `:name` stands for one segment, `*name` for the rest.
pub record Route : Type 0 where
  pub method : Method
  pub path : Text
  pub endpoint : Endpoint

abbrev pub route : Text → Method → Endpoint → Route
route path method endpoint = record { method = method; path = path; endpoint = endpoint }

-- A table that `nest` puts below a prefix.
pub record Nested : Type 0 where
  pub prefix : Text
  pub routes : List Route
  pub fallback : Endpoint

pub record Router : Type 0 where
  pub nested : List Nested
  pub routes : List Route
  pub fallback : Endpoint

unfoldable pub api_router : List Route
api_router =
    route (codes "/new") Method.put Endpoint.publish
    ∷ route (codes "/:crate_name/:version/yank") Method.delete Endpoint.yank
    ∷ route (codes "/:crate_name/:version/unyank") Method.put Endpoint.unyank
    ∷ route (codes "/:crate_name/owners") Method.get Endpoint.list_owners
    ∷ route (codes "/:crate_name/owners") Method.delete Endpoint.remove_owners
    ∷ route (codes "/:crate_name/owners") Method.put Endpoint.add_owners
    ∷ route (codes "/account") Method.post Endpoint.register
    ∷ route (codes "/") Method.get Endpoint.search
    ∷ []

unfoldable pub index_router : List Route
index_router =
    route (codes "/config.json") Method.get Endpoint.config
    ∷ route (codes "/*crate_index_path") Method.get Endpoint.get_sparse_meta
    ∷ []

unfoldable pub downloads_router : List Route
downloads_router = route (codes "/:name/:version") Method.get Endpoint.serve_crate ∷ []

-- `router`. The limit on the body of a request to the API stands in the handlers (Server/Router).
unfoldable pub router : Router
unfolding api_router index_router downloads_router
router = record {
  nested =
      record {
        prefix = codes "/downloads";
        routes = downloads_router;
        fallback = Endpoint.downloads_fallback;
      }
      ∷ record {
        prefix = codes "/index";
        routes = index_router;
        fallback = Endpoint.index_fallback;
      }
      ∷ record {
        prefix = codes "/api/v1/crates";
        routes = api_router;
        fallback = Endpoint.api_fallback;
      }
      ∷ [];
  routes =
      route (codes "/me") Method.get Endpoint.registration
      ∷ route (codes "/all") Method.get Endpoint.list
      ∷ route (codes "/healthcheck") Method.get Endpoint.healthcheck
      ∷ route (codes "/") Method.get Endpoint.root_page
      ∷ [];
  fallback = Endpoint.global_fallback;
}
