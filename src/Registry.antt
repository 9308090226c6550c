-- ===== src/Registry.antt =====
-- A client (crates/freighter-client/src/lib.rs) of a server (crates/freighter-server/src/lib.rs): the
-- HTTP library of the client is a network that delivers each request to the server and its response
-- to the client.
pub mod Publishing
pub mod Outcome
pub mod Listed
use freighter.Base.{
  ℕ, ◌≡◌, leb, Bool, true, some, List, [], ◌∷◌, ◌++◌, Text, codes, Bytes, Result, ok, err, all, not,
  eqb, ◌&&◌, ◌||◌, length, ◌≤◌, ◌<◌, text_beq,
}
use freighter.Types.Error.{Rejection}
use freighter.Types.Index.{Semver, CompletedPublication, Publish}
use freighter.Types.IndexProvider.{IndexProvider}
use freighter.Storage.Crates.{StorageProvider}
use freighter.Auth.Provider.{AuthProvider, default_token_from_headers}
use freighter.Server.Service.{Platform, Service}
use freighter.Server.Routes.{Method, router}
use freighter.Server.Router.{Axum, Request, Reply, found, serve}
use freighter.Server.Root.{Timing}
use freighter.Server.Client.{is_plain_path}
use freighter.Client.Wire
use freighter.Client.Wire.{Http, Response, scheme}

-- What `hyper` and the sockets do on both sides.
pub record Network (S : Semver) : Type 0 where
  pub request_of : Wire.Request → Request
  pub response_of : Result Rejection (Reply S) → Response

-- The bytes of a token that may stand in a header and are read back from it.
abbrev pub is_visible : Text → Bool
is_visible = all (λ b. leb 32 b && leb b 126)

-- A route without parameters that is not the root of its table.
abbrev is_static : Text → Bool
is_static path = not (text_beq path (codes "/")) && all (λ b. not (eqb b b':' || eqb b b'*')) path

abbrev pub All : {A : Type 0} → (A → Type 0) → List A → Type 0
All P [] = Unit
All P (x ∷ xs) = P x × All P xs

module _ {S : Semver} (W : Axum S) where
  -- `axum` on the tables of the server: a route without parameters is taken by its own path, below
  -- the prefix of its table, and a body is given to the handler exactly if it is within the limit.
  pub record IsAxum : Type 0 where
    pub static_routes :
        All
          (λ table.
            All
              (λ r.
                is_static r.path ≡ true
                → W.select router r.method (table.prefix ++ r.path) ≡ found r.endpoint [])
              table.routes)
          router.nested
    pub bytes_within :
        (limit : ℕ) (body : Bytes) → length body ≤ limit → W.bytes limit body ≡ ok body
    pub bytes_beyond :
        (limit : ℕ) (body : Bytes)
        → limit < length body
        → (e : Rejection) × (W.bytes limit body ≡ err e) × (e.status ≡ 413)

-- A network between a client of the API at `api` and a server with the JSON of `H` and `X`.
pub record IsNetwork {S : Semver} (N : Network S) (H : Http S) (X : Platform S) (api : Text)
    : Type 0 where
  pub path_arrives :
      (req : Wire.Request) (path : Text)
      → req.url ≡ scheme api ++ (api ++ path)
      → is_plain_path path ≡ true
      → (N.request_of req).path ≡ path
  pub put_arrives :
      (req : Wire.Request) → req.method ≡ codes "PUT" → (N.request_of req).method ≡ Method.put
  pub body_arrives : (req : Wire.Request) → req.form ≡ [] → (N.request_of req).body ≡ req.body
  pub token_arrives :
      (req : Wire.Request) (token : Text)
      → req.authorization ≡ token ∷ []
      → is_visible token ≡ true
      → default_token_from_headers (N.request_of req).headers ≡ ok (some token)
  pub refusal_arrives : (e : Rejection) → (N.response_of (err e)).status ≡ e.status
  pub reply_arrives : (r : Reply S) → (N.response_of (ok r)).status ≡ 200
  pub completed_arrives :
      (c : CompletedPublication)
      → (bytes : Bytes) × ((N.response_of (ok (Reply.completed c))).bytes ≡ ok bytes)
        × (H.completed_from_slice bytes ≡ ok c)
  pub publish_read_back :
      (p : Publish S) (bytes : Bytes)
      → H.publish_to_vec p ≡ ok bytes
      → X.publish_from_slice bytes ≡ some p

module _ {S : Semver} (H : Http S) (N : Network S) (X : Platform S) (W : Axum S) (A : AuthProvider)
    (I : IndexProvider S) (T : StorageProvider) (page : Text) (t : Timing A I T) where
  -- The HTTP library of `H`, with the server at the other end.
  abbrev pub connected : Http S
  connected = record {
    World = Service A I T;
    is_url = H.is_url;
    is_header_value = H.is_header_value;
    url_error = H.url_error;
    header_error = H.header_error;
    status_message = H.status_message;
    execute = λ req s.
        let (r, s') = serve X W A I T page t (N.request_of req) s in (ok (N.response_of r), s');
    config_from_slice = H.config_from_slice;
    completed_from_slice = H.completed_from_slice;
    list_from_slice = H.list_from_slice;
    version_from_str = H.version_from_str;
    publish_to_vec = H.publish_to_vec;
  }
