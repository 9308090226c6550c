-- ===== src/Auth/Fs.antt =====
-- `FsAuthProvider` of crates/freighter-auth/src/fs_backend.rs. Every operation runs to its end
-- under the lock on `owners`, so an operation is one step on the state.
pub mod Sound
pub mod Keeps
pub mod Operations
pub mod Access
pub mod Requests
use freighter.Base.{
  true, false, Option, none, some, List, ◌++◌, map, Text, text_eq, codes, Bytes, Result, ok, err,
  ok_or, map_err, strip_prefix, if◌then◌else◌,
}
use freighter.Base.Acts.{Act, ◌>>=◌, ◌>>◌, lift, pure, raise, gets, modify}
use freighter.Base.Dict
use freighter.Base.Dict.{Dict}
use freighter.Types.Error.{
  context, AuthError, forbidden, invalid_credentials, crate_not_found, service_error,
}
use freighter.Auth.Base64
use freighter.Auth.Base64.{Base64}
use freighter.Auth.OwnerSet
use freighter.Auth.Owners.{
  HashedToken, Owners, no_owners, login_for_token, ensure_authorized_for_crate,
}
use freighter.Auth.Owners
use freighter.Auth.Platform.{
  Platform, token_prefix, Config, ListedOwner, with_crate_owners, remove_each, claim_crate,
  token_to_str, read_owners, write_owners,
}

module _ (P : Platform) where
  pub record FsAuth : Type 0 where
    pub owners_file_path : Text
    pub owners : Option Owners
    pub pepper : Bytes
    pub world : P.World

module _ {P : Platform} where
  -- `FsAuthProvider::new`
  unfoldable pub new : Config → P.World → Result AuthError (FsAuth P) × P.World
  new config w =
      let (made, w') = P.create_dir_all config.auth_path w in
      (
        elim made [
          | err e ↦ err (service_error (context (codes "Auth root at " ++ config.auth_path) e))
          | ok _ ↦ ok (record {
            owners_file_path = P.join config.auth_path (codes "owners.json");
            owners = none;
            pepper = config.auth_tokens_pepper;
            world = w';
          })
        ],
        w',
      )

  unfoldable pub random_token : Act (FsAuth P) AuthError Bytes
  random_token s = let (token, w) = P.random_bytes 21 s.world in (ok token, record s { world = w })

  unfoldable pub hash_token : FsAuth P → Bytes → HashedToken
  hash_token s bare = P.hmac_sha224 s.pepper bare

  unfoldable pub token_from_str : Text → FsAuth P → Result AuthError HashedToken
  unfolding hash_token
  token_from_str token s = elim (strip_prefix token_prefix token) [
    | none ↦ err invalid_credentials
    | some rest ↦ elim (Base64.decode P.base64 21 rest) [
      | none ↦ err invalid_credentials
      | some bare ↦ ok (hash_token s bare)
    ]
  ]

  unfoldable pub load_owners_file : FsAuth P → Result AuthError Owners
  load_owners_file s = elim (P.try_exists s.owners_file_path s.world) [
    | err e ↦ err (service_error (context (codes "access to owners dir") e))
    | ok false ↦ ok no_owners
    | ok true ↦ elim (P.open_file s.owners_file_path s.world) [
      | err e ↦ err (service_error (context (codes "read owners") e))
      | ok bytes ↦ read_owners P bytes
    ]
  ]

  -- `owners` and `owners_mut`: what is loaded stays loaded.
  unfoldable pub owners_mut : Act (FsAuth P) AuthError Owners
  owners_mut s = elim s.owners [
    | some o ↦ (ok o, s)
    | none ↦ elim (load_owners_file s) [
      | err e ↦ (err e, s)
      | ok o ↦ (ok o, record s { owners = some o })
    ]
  ]

  -- A write through the guard of `owners_mut`.
  abbrev pub set_owners : Owners → Act (FsAuth P) AuthError (Unit {0})
  set_owners o = modify (λ s. record s { owners = some o })

  unfoldable pub sync_owners : Owners → Act (FsAuth P) AuthError (Unit {0})
  sync_owners o s =
      let (r, w) = write_owners P s.owners_file_path o s.world in
      (map_err (λ e. service_error (context (codes "saving owners") e)) r, record s { world = w })

  unfoldable pub ensure_valid_token : Text → Act (FsAuth P) AuthError (Unit {0})
  ensure_valid_token token = do
    hashed ← gets (token_from_str token)
    o ← owners_mut
    login ← lift (login_for_token hashed o)
    pure tt

  unfoldable pub register : Text → Act (FsAuth P) AuthError Text
  register username = do
    o ← owners_mut
    bare ← random_token
    hashed ← gets (λ s. ok (hash_token s bare))
    let registered = Owners.register username hashed o
    set_owners registered.1
    lift registered.0
    sync_owners registered.1
    pure (token_to_str P bare)

  unfoldable pub list_owners : Text → Text → Act (FsAuth P) AuthError (List ListedOwner)
  list_owners token crate_name = do
    o ← owners_mut
    owners ← lift (ok_or (Dict.lookup crate_name o.crate_owners) crate_not_found)
    pure (map (λ login. record { id = 0; login = login; name = none }) owners)

  unfoldable pub add_owners : Text → List Text → Text → Act (FsAuth P) AuthError (Unit {0})
  add_owners token users crate_name = do
    hashed ← gets (token_from_str token)
    o ← owners_mut
    lift (ensure_authorized_for_crate hashed crate_name o)
    owners ← lift (ok_or (Dict.lookup crate_name o.crate_owners) crate_not_found)
    let o' = with_crate_owners crate_name (OwnerSet.extend owners users) o
    set_owners o'
    sync_owners o'

  unfoldable pub remove_owners : Text → List Text → Text → Act (FsAuth P) AuthError (Unit {0})
  remove_owners token users crate_name = do
    hashed ← gets (token_from_str token)
    o ← owners_mut
    lift (ensure_authorized_for_crate hashed crate_name o)
    owners ← lift (ok_or (Dict.lookup crate_name o.crate_owners) crate_not_found)
    let left = remove_each users owners
    let o' = with_crate_owners crate_name left.0 o
    set_owners o'
    sync_owners o'
    if left.1 then pure tt else raise forbidden

  unfoldable pub publish : Text → Text → Act (FsAuth P) AuthError (Unit {0})
  publish token crate_name = do
    hashed ← gets (token_from_str token)
    o ← owners_mut
    o' ← lift (claim_crate hashed crate_name o)
    set_owners o'
    lift (ensure_authorized_for_crate hashed crate_name o')

  unfoldable pub auth_yank : Text → Text → Act (FsAuth P) AuthError (Unit {0})
  auth_yank token crate_name = do
    hashed ← gets (token_from_str token)
    o ← owners_mut
    lift (ensure_authorized_for_crate hashed crate_name o)
