-- ===== src/Auth/Platform.antt =====
-- What `FsAuthProvider` uses and the repository does not hold, and the parts of its methods that do
-- not read its fields (crates/freighter-auth/src/fs_backend.rs).
use freighter.Base.{
  ℕ, ltb, Bool, true, false, Option, none, some, List, [], ◌∷◌, ◌++◌, Text, text_eq, codes, Bytes,
  Result, ok, err, length, if◌then◌else◌,
}
use freighter.Base.Dict
use freighter.Base.Dict.{Dict}
use freighter.Types.Error.{AnyError, context, AuthError, service_error}
use freighter.Auth.Base64
use freighter.Auth.Base64.{Base64}
use freighter.Auth.OwnerSet
use freighter.Auth.Owners.{HashedToken, Owners, login_for_token}

-- The fields of `Owners` that are serialized.
pub record OwnersFile : Type 0 where
  pub token_owners : Dict HashedToken Text
  pub crate_owners : Dict Text (List Text)

-- The file system, `serde_json`, `tempfile`, `rand`, `hmac` and `base64`: what the provider uses
-- and does not implement.
pub record Platform : Type 1 where
  pub World : Type 0
  pub create_dir_all : Text → World → Result AnyError (Unit {0}) × World
  pub join : Text → Text → Text
  pub parent : Text → Option Text
  pub try_exists : Text → World → Result AnyError Bool
  pub open_file : Text → World → Result AnyError Bytes
  pub temp_file_in : Text → World → Result AnyError (Unit {0})
  pub persist : Text → Bytes → World → Result AnyError (Unit {0}) × World
  pub from_reader : Bytes → Result AnyError OwnersFile
  pub to_writer : OwnersFile → Result AnyError Bytes
  pub random_bytes : ℕ → World → Bytes × World
  pub hmac_sha224 : Bytes → Bytes → HashedToken
  pub base64 : Base64

abbrev pub token_prefix : Text
token_prefix = codes "fr1_"

pub record Config : Type 0 where
  pub auth_path : Text
  pub auth_tokens_pepper : Bytes

pub record ListedOwner : Type 0 where
  pub id : ℕ
  pub login : Text
  pub name : Option Text

-- The owners of a file, with the reverse map left to be collected.
abbrev pub loaded : OwnersFile → Owners
loaded f = record {
  token_owners = f.token_owners;
  crate_owners = f.crate_owners;
  owner_tokens = [];
}

abbrev pub file_of : Owners → OwnersFile
file_of o = record { token_owners = o.token_owners; crate_owners = o.crate_owners }

-- What `crate_owners` is once one crate's owners were written through `get_mut`.
abbrev pub with_crate_owners : Text → List Text → Owners → Owners
with_crate_owners c owners o = record o { crate_owners = Dict.insert c owners o.crate_owners }

-- The loop of `remove_owners`: the owners that are left, and whether it came to its end.
unfoldable pub remove_each : List Text → List Text → List Text × Bool
remove_each [] owners = (owners, true)
remove_each (login ∷ users) owners =
    let rest = remove_each users (OwnerSet.remove login owners) in
    if ltb 1 (length owners) then rest else (owners, false)

-- The branch of `publish` for a crate that has no owners yet.
unfoldable pub claim_crate : HashedToken → Text → Owners → Result AuthError Owners
claim_crate hashed crate_name o = elim (Dict.lookup crate_name o.crate_owners) [
  | some _ ↦ ok o
  | none ↦ elim (login_for_token hashed o) [
    | err e ↦ err e
    | ok login ↦ ok (with_crate_owners crate_name (login ∷ []) o)
  ]
]

module _ (P : Platform) where
  unfoldable pub token_to_str : Bytes → Text
  token_to_str bare = token_prefix ++ Base64.encode P.base64 bare

  -- `serde_json::from_reader` behind its `context`.
  unfoldable pub read_owners : Bytes → Result AuthError Owners
  read_owners bytes = elim (P.from_reader bytes) [
    | err e ↦ err (service_error (context (codes "parse owners") e))
    | ok f ↦ ok (loaded f)
  ]

  -- `inner` of `sync_owners`.
  unfoldable pub write_owners : Text → Owners → P.World → Result AnyError (Unit {0}) × P.World
  write_owners path o w = elim (P.parent path) [
    | none ↦ (err (codes "invalid input parameter" ∷ []), w)
    | some dir ↦ elim (P.temp_file_in dir w) [
      | err e ↦ (err e, w)
      | ok _ ↦ elim (P.to_writer (file_of o)) [
        | err e ↦ (err e, w)
        | ok bytes ↦ P.persist path bytes w
      ]
    ]
  ]
