-- ===== src/Server/Service.antt =====
-- `ServiceConfig` and `ServiceState` of crates/freighter-server/src/lib.rs, and what the handlers
-- share: a token from the headers, and errors as responses.
use freighter.Base.{
  ℕ, Bool, Option, none, some, Text, codes, ◌++◌, Bytes, Result, ok, err, has_infix, if◌then◌else◌,
  [],
}
use freighter.Types.Error.{AnyError, Rejection, plain}
use freighter.Types.Index.{Semver, Publish}
use freighter.Types.IndexProvider.{IndexProvider}
use freighter.Storage.Crates.{StorageProvider}
use freighter.Auth.Provider.{AuthProvider, HeaderMap}

-- The addresses, which only `main` reads, are left out.
pub record ServiceConfig : Type 0 where
  pub download_endpoint : Text
  pub api_endpoint : Text
  pub allow_registration : Bool
  pub auth_required : Bool
  pub crate_size_limit : ℕ

-- `https://` in front of an endpoint that has no scheme.
abbrev pub with_scheme : Text → Text
with_scheme endpoint =
    if has_infix (codes "://") endpoint then endpoint else codes "https://" ++ endpoint

-- `ServiceConfig::sanitize`
unfoldable pub sanitize : ServiceConfig → ServiceConfig
sanitize c = record c {
  api_endpoint = with_scheme c.api_endpoint;
  download_endpoint = with_scheme c.download_endpoint;
}

-- What the server uses of other crates: `serde_json` for a request, `sha2`, and the digest in
-- `AuthError`'s message.
module _ (S : Semver) where
  pub record Platform : Type 0 where
    pub publish_from_slice : Bytes → Option (Publish S)
    pub sha256 : Bytes → Bytes
    pub error_id : AnyError → Text

module _ {S : Semver} (A : AuthProvider) (I : IndexProvider S) (T : StorageProvider) where
  -- The state of the three services behind `ServiceState`.
  pub record Service : Type 0 where
    pub config : ServiceConfig
    pub auth : A.State
    pub index : I.State
    pub storage : T.State

-- `token_from_headers(&headers)?.ok_or((UNAUTHORIZED, "Auth token missing"))?`
unfoldable pub required_token : Text → AuthProvider → HeaderMap → Result Rejection Text
required_token missing A headers = elim (A.token_from_headers headers) [
  | err status ↦ err (plain status [])
  | ok none ↦ err (plain 401 missing)
  | ok (some token) ↦ ok token
]

abbrev pub auth_token_missing : Text
auth_token_missing = codes "Auth token missing"
