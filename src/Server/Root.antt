-- ===== src/Server/Root.antt =====
-- What crates/freighter-server/src/lib.rs serves at its root, and `ServiceState::new`.
pub mod Health
use freighter.Base.{
  ℕ, ◌*◌, ◌≡◌, ◌⊎◌, refl, inl, inr, Bool, true, false, List, [], ◌∷◌, ◌++◌, Text, text_eq, codes,
  ok, err, map_err, arith, if◌then◌else◌, Bool-cases, Result-cases,
}
use freighter.Base.Acts.{Act}
use freighter.Base.Dict
use freighter.Base.Dict.{Dict}
use freighter.Types.Error.{AnyError, Rejection, plain}
use freighter.Types.Index.{Semver}
use freighter.Types.IndexProvider.{IndexProvider}
use freighter.Storage.Crates.{StorageProvider}
use freighter.Auth.Provider.{AuthProvider}
use freighter.Server.Service.{ServiceConfig, Service, sanitize}

abbrev pub default_true : Bool
default_true = true

abbrev pub default_crate_size_limit : ℕ
default_crate_size_limit = 16 * 1024 * 1024

abbrev pub handle_global_fallback : Rejection
handle_global_fallback =
    plain 404 (codes "Freighter: There is no such URL at the root of the server")

-- The headers that `x_powered_by` adds to every response; `version` is that of the package.
unfoldable pub x_powered_by : Text → Dict Text Text → Dict Text Text
x_powered_by version headers =
    Dict.insert (codes "server") (codes "axum/0.7")
      (Dict.insert (codes "x-powered-by") (codes "freighter/" ++ version) headers)

abbrev bool_to_string : Bool → Text
bool_to_string true = codes "true"
bool_to_string false = codes "false"

unfoldable pub root_page : ServiceConfig → Text
root_page config =
    codes "The registry URL for cargo is \"sparse+https://"
    ++ (config.api_endpoint
        ++ (codes
              "/index\".\n\nThis is root of the Freighter server. There's nothing here.\nThe API endpoint is at "
            ++ (config.api_endpoint
                ++ (codes ".\nThe download endpoint is at "
                    ++ (config.download_endpoint
                        ++ (codes ".\nAuth is always required: "
                            ++ bool_to_string config.auth_required))))))

-- `register`; `page` is static/register.html.
unfoldable pub registration : AuthProvider → Text → Text
registration A page = elim A.register_supported [ err why ↦ why | ok _ ↦ page ]

-- The three checks of `healthcheck`.
pub data Check : Type 0 where
  auth index storage : Check

-- The orders in which the three checks may end.
pub data Order : Type 0 where
  auth_index_storage auth_storage_index index_auth_storage : Order
  index_storage_auth storage_auth_index storage_index_auth : Order

abbrev pub checks : Order → List Check
checks Order.auth_index_storage = Check.auth ∷ Check.index ∷ Check.storage ∷ []
checks Order.auth_storage_index = Check.auth ∷ Check.storage ∷ Check.index ∷ []
checks Order.index_auth_storage = Check.index ∷ Check.auth ∷ Check.storage ∷ []
checks Order.index_storage_auth = Check.index ∷ Check.storage ∷ Check.auth ∷ []
checks Order.storage_auth_index = Check.storage ∷ Check.auth ∷ Check.index ∷ []
checks Order.storage_index_auth = Check.storage ∷ Check.index ∷ Check.auth ∷ []

abbrev pub label : Check → Text
label Check.auth = codes "auth"
label Check.index = codes "index"
label Check.storage = codes "storage"

module _ {S : Semver} (A : AuthProvider) (I : IndexProvider S) (T : StorageProvider) where
  -- `ServiceState::new`
  unfoldable pub new_state : ServiceConfig → A.State → I.State → T.State → Service A I T
  new_state config auth_client index_client storage_client = record {
    config = sanitize config;
    auth = auth_client;
    index = index_client;
    storage = storage_client;
  }

  -- How the checks, which run at the same time, come out: the order in which they end, which of them
  -- do not end in four seconds, and what one that is dropped has done to its service.
  pub record Timing : Type 0 where
    pub order : Order
    pub timed_out : Check → Bool
    pub cut_auth : A.State → A.State
    pub cut_index : I.State → I.State
    pub cut_storage : T.State → T.State

  unfoldable pub interrupt : Timing → Check → Service A I T → Service A I T
  interrupt t Check.auth s = record s { auth = t.cut_auth s.auth }
  interrupt t Check.index s = record s { index = t.cut_index s.index }
  interrupt t Check.storage s = record s { storage = t.cut_storage s.storage }

  unfoldable pub interrupt_all : Timing → List Check → Service A I T → Service A I T
  interrupt_all t [] s = s
  interrupt_all t (c ∷ cs) s = interrupt_all t cs (interrupt t c s)

  -- The health check of one service.
  unfoldable pub check_service : Check → Act (Service A I T) AnyError (Unit {0})
  check_service Check.auth s = let (r, x) = A.healthcheck s.auth in (r, record s { auth = x })
  check_service Check.index s = let (r, x) = I.healthcheck s.index in (r, record s { index = x })
  check_service Check.storage s =
      let (r, x) = T.healthcheck s.storage in (r, record s { storage = x })

  -- `label(.., timeout(..))`
  unfoldable pub check : Timing → Check → Act (Service A I T) Text (Unit {0})
  check t c s =
      let (r, s') = check_service c s in
      if t.timed_out c
      then (err (label c ++ codes " timed out"), interrupt t c s)
      else (map_err (λ _. label c ++ codes " failed") r, s')

  -- `try_join!`: the first failure drops the checks that have not ended.
  unfoldable pub try_join : Timing → List Check → Act (Service A I T) Text (Unit {0})
  try_join t [] s = (ok tt, s)
  try_join t (c ∷ cs) s =
      let (r, s') = check t c s in
      let rest = try_join t cs s' in elim r [ err e ↦ (err e, interrupt_all t cs s') | ok _ ↦ rest ]

  unfoldable pub healthcheck : Timing → Act (Service A I T) Rejection Text
  healthcheck t s =
      let (r, s') = try_join t (checks t.order) s in
      (elim r [ err e ↦ err (plain 500 e) | ok _ ↦ ok (codes "OK") ], s')
