-- ===== src/Server/Index.antt =====
-- crates/freighter-server/src/index.rs: the sparse index.
pub mod Metadata
use freighter.Base.{
  ℕ, eqb, ◌≡◌, Bool, true, false, not, ◌||◌, Option, none, some, List, [], ◌∷◌, ◌++◌, map, Text,
  text_eq, codes, Result, ok, err, map_err, if◌then◌else◌, any, contains, ◌==◌, strip_prefix,
  rsplit_once, unwrap_or,
}
use freighter.Base.Acts.{Act}
use freighter.Base.Dict
use freighter.Types.Error.{Rejection, plain, auth_response, index_response}
use freighter.Types.Index.{Semver, Dependency, CrateVersion, Features, SparseEntries}
use freighter.Types.IndexProvider.{IndexProvider}
use freighter.Storage.Crates.{StorageProvider}
use freighter.Auth.Provider.{AuthProvider, HeaderMap}
use freighter.Server.Service.{Platform, Service, required_token}

-- `RegistryConfig`
pub record RegistryConfig : Type 0 where
  pub dl : Text
  pub api : Text
  pub auth_required : Bool

-- `split(['?', '/']).next()`: what stands before the first of the two.
unfoldable pub before_mark : Text → Text
before_mark [] = []
before_mark (c ∷ t) = let rest = before_mark t in if eqb c b'?' || eqb c b'/' then [] else c ∷ rest

-- The name of the dependency or the feature that an action names.
unfoldable pub action_target : Text → Text
action_target action = before_mark (unwrap_or (strip_prefix (codes "dep:") action) action)

-- The closure of `retain`: whether the action stays, and the feature that is missing.
unfoldable pub check_action : List Text → List Text → Text → Bool × List Text
check_action valid_features deps action =
    if contains valid_features action
    then (true, [])
    else let target = action_target action in
      if contains deps target
      then (true, [])
      else (false, if contains valid_features target then [] else target ∷ [])

-- `retain` over the actions of one feature.
unfoldable pub retain_actions : List Text → List Text → List Text → List Text × List Text
unfolding check_action
retain_actions valid_features deps [] = ([], [])
retain_actions valid_features deps (action ∷ actions) =
    let (stays, missing) = check_action valid_features deps action in
    let (rest, more) = retain_actions valid_features deps actions in
    (if stays then action ∷ rest else rest, missing ++ more)

-- The loop over the features of one map.
unfoldable pub retain_features : List Text → List Text → Features → Features × List Text
retain_features valid_features deps [] = ([], [])
retain_features valid_features deps ((k, actions) ∷ m) =
    let (kept, missing) = retain_actions valid_features deps actions in
    let (rest, more) = retain_features valid_features deps m in ((k, kept) ∷ rest, missing ++ more)

-- `entry(f).or_insert_with(Vec::new)` for each missing feature.
unfoldable pub add_missing : List Text → Features → Features
add_missing [] m = m
add_missing (f ∷ fs) m = add_missing fs (if Dict.contains_key f m then m else Dict.insert f [] m)

module _ {S : Semver} where
  -- The body of the loop of `ensure_correct_metadata`.
  unfoldable pub correct_entry : CrateVersion S → CrateVersion S
  correct_entry e =
      let valid_features = Dict.keys e.features ++ Dict.keys e.features2 in
      let deps = map (λ d. d.name) e.deps in
      let (features, missing) = retain_features valid_features deps e.features in
      let (features2, missing2) = retain_features valid_features deps e.features2 in
      record e { features = add_missing (missing ++ missing2) features; features2 = features2 }

  unfoldable pub ensure_correct_metadata : List (CrateVersion S) → List (CrateVersion S)
  ensure_correct_metadata = map correct_entry

module _ {S : Semver} (X : Platform S) (A : AuthProvider) (I : IndexProvider S)
    (T : StorageProvider) where
  abbrev pub login_required : Text
  login_required =
      codes
        "error: This registry requires cargo authentication\nhttps://doc.rust-lang.org/cargo/reference/registry-authentication.html"

  -- `config`; the header `WWW-Authenticate` of the refusal is left out.
  unfoldable pub config : HeaderMap → Act (Service A I T) Rejection RegistryConfig
  config headers s =
      let answer : RegistryConfig = record {
        dl = s.config.download_endpoint;
        api = s.config.api_endpoint;
        auth_required = s.config.auth_required;
      } in
      if s.config.auth_required
      then (elim (required_token login_required A headers) [
        | err e ↦ (err e, s)
        | ok token ↦
            let (r, auth) = A.auth_config token s.auth in
            (
              elim r [ err e ↦ err (auth_response X.error_id e) | ok _ ↦ ok answer ],
              record s { auth = auth },
            )
      ])
      else (ok answer, s)

  -- The answer of `get_sparse_meta` once access is granted.
  unfoldable pub sparse_meta : Text → I.State → Result Rejection (SparseEntries S)
  sparse_meta crate_name index = elim (I.get_sparse_entry crate_name index) [
    | err e ↦ err (index_response e)
    | ok crate_versions ↦
        ok (record crate_versions { entries = ensure_correct_metadata crate_versions.entries })
  ]

  unfoldable pub get_sparse_meta :
      HeaderMap → Text → Act (Service A I T) Rejection (SparseEntries S)
  get_sparse_meta headers crate_index_path s = elim (rsplit_once b'/' crate_index_path) [
    | none ↦ (err (plain 400 []), s)
    | some (_, crate_name) ↦
        if s.config.auth_required
        then (elim (required_token [] A headers) [
          | err e ↦ (err e, s)
          | ok token ↦
              let (r, auth) = A.auth_index_fetch token crate_name s.auth in
              (
                elim r [
                  | err e ↦ err (auth_response X.error_id e)
                  | ok _ ↦ sparse_meta crate_name s.index
                ],
                record s { auth = auth },
              )
        ])
        else (sparse_meta crate_name s.index, s)
  ]
