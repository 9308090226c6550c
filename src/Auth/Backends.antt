-- ===== src/Auth/Backends.antt =====
-- The providers of crates/freighter-auth as implementations of the trait: fs_backend.rs,
-- yes_backend.rs and no_backend.rs.
use freighter.Base.{ℕ, Bool, not, [], ◌∷◌, Text, codes, Result, ok, err, if◌then◌else◌, map_err}
use freighter.Base.Acts.{Act, raise, pure}
use freighter.Types.Error.{AnyError, AuthError, unimplemented, service_error}
use freighter.Auth.Platform.{Platform}
use freighter.Auth.Fs
use freighter.Auth.Fs.{FsAuth, owners_mut, ensure_valid_token}
use freighter.Auth.Provider.{AuthProvider, default_token_from_headers, default_check}

-- `anyhow::Error` from an `AuthError`: its message, and what it wraps.
unfoldable pub any_of_auth : (AnyError → Text) → AuthError → AnyError
any_of_auth error_id AuthError.unauthorized =
    codes "The credentials were missing, or were insufficient to perform the operation requested"
    ∷ []
any_of_auth error_id AuthError.forbidden =
    codes "The client is not allowed to perform the operation requested" ∷ []
any_of_auth error_id AuthError.invalid_credentials =
    codes "The credentials supplied were invalid" ∷ []
any_of_auth error_id AuthError.unimplemented = codes "This operation is not implemented" ∷ []
any_of_auth error_id AuthError.crate_not_found = codes "The requested crate does not exist" ∷ []
any_of_auth error_id (AuthError.service_error e) = error_id e ∷ e

-- `impl AuthProvider for FsAuthProvider`
unfoldable pub fs_provider : Platform → (AnyError → Text) → AuthProvider
fs_provider P error_id = record {
  State = FsAuth P;
  healthcheck = λ s.
      let (r, s') = owners_mut s in
      (map_err (any_of_auth error_id) (elim r [ ok _ ↦ ok tt | err e ↦ err e ]), s');
  register = Fs.register;
  register_supported = ok tt;
  list_owners = Fs.list_owners;
  add_owners = Fs.add_owners;
  remove_owners = Fs.remove_owners;
  publish = Fs.publish;
  auth_yank = Fs.auth_yank;
  auth_index_fetch = λ token _. ensure_valid_token token;
  auth_crate_download = λ token _. ensure_valid_token token;
  auth_view_full_index = ensure_valid_token;
  auth_config = ensure_valid_token;
  token_from_headers = default_token_from_headers;
}

-- `YesAuthProvider::new`
unfoldable pub yes_new : Bool → Result AuthError (Unit {0})
yes_new allow_full_access =
    if not allow_full_access
    then err (service_error (codes "enabled 'yes' auth without explicit opt-in" ∷ []))
    else ok tt

-- `impl AuthProvider for YesAuthProvider`; the state is the source of random tokens.
abbrev pub yes_provider : {Rng : Type 0} → (ℕ → Rng → Text × Rng) → AuthProvider
yes_provider {Rng} sample_alphanumeric = record {
  State = Rng;
  healthcheck = pure tt;
  register = λ username rng. let (token, rng') = sample_alphanumeric 32 rng in (ok token, rng');
  register_supported = ok tt;
  list_owners = λ _ _. pure [];
  add_owners = λ _ _ _. pure tt;
  remove_owners = λ _ _ _. pure tt;
  publish = λ _ _. pure tt;
  auth_yank = λ _ _. pure tt;
  auth_index_fetch = λ _ _. pure tt;
  auth_crate_download = λ _ _. pure tt;
  auth_view_full_index = λ _. pure tt;
  auth_config = λ _. pure tt;
  token_from_headers = default_token_from_headers;
}

-- `nope`
unfoldable pub nope : {A : Type 0} → Act (Unit {0}) AuthError A
nope = raise unimplemented

-- `NoAuthProvider::new`
unfoldable pub no_new : Unit {0} → Result AuthError (Unit {0})
no_new config = err unimplemented

-- `impl AuthProvider for NoAuthProvider`; `auth_config` is the trait's.
unfoldable pub no_provider : AuthProvider
no_provider = record {
  State = Unit {0};
  healthcheck = pure tt;
  register = λ _. nope;
  register_supported = err (codes "This is a 'no' backend");
  list_owners = λ _ _. nope;
  add_owners = λ _ _ _. nope;
  remove_owners = λ _ _ _. nope;
  publish = λ _ _. nope;
  auth_yank = λ _ _. nope;
  auth_index_fetch = λ _ _. nope;
  auth_crate_download = λ _ _. nope;
  auth_view_full_index = λ _. nope;
  auth_config = λ _. default_check;
  token_from_headers = default_token_from_headers;
}
