-- ===== src/Auth/Owners.antt =====
-- `Owners` of crates/freighter-auth/src/fs_backend.rs: who holds which token, and who owns which
-- crate. A `HashedToken` is its 28 bytes.
pub mod Laws
use freighter.Base.{
  ◌≡◌, Bool, true, false, Option, none, some, List, [], ◌∷◌, Text, text_eq, Bytes, Result, ok, err,
  ◌>>=◌, ok_or, if◌then◌else◌, contains, is_some,
}
use freighter.Base.Dict
use freighter.Base.Dict.{Dict}
use freighter.Types.Error.{AuthError, forbidden, invalid_credentials, crate_not_found}

abbrev pub HashedToken : Type 0
HashedToken = Bytes

pub record Owners : Type 0 where
  pub token_owners : Dict HashedToken Text
  pub crate_owners : Dict Text (List Text)
  pub owner_tokens : Dict Text HashedToken

-- What `load_owners_file` returns where there is no file.
abbrev pub no_owners : Owners
no_owners = record { token_owners = []; crate_owners = []; owner_tokens = [] }

-- The reverse map, collected from the pairs of `token_owners`.
unfoldable pub reverse_tokens : Dict HashedToken Text → Dict Text HashedToken
reverse_tokens [] = []
reverse_tokens ((k, v) ∷ m) = Dict.insert v k (reverse_tokens m)

-- `owner_tokens`, collected anew if it is empty.
abbrev pub fill_tokens : Dict Text HashedToken → Dict HashedToken Text → Dict Text HashedToken
fill_tokens [] m = reverse_tokens m
fill_tokens (e ∷ l) m = e ∷ l

abbrev pub filled_tokens : Owners → Dict Text HashedToken
filled_tokens o = fill_tokens o.owner_tokens o.token_owners

unfoldable pub register : Text → HashedToken → Owners → Result AuthError (Unit {0}) × Owners
register login token o =
    let o' : Owners = record o { owner_tokens = filled_tokens o } in
    if Dict.contains_key login o'.owner_tokens then (err forbidden, o') else (
      ok tt,
      record o' {
        owner_tokens = Dict.insert login token o'.owner_tokens;
        token_owners = Dict.insert token login o'.token_owners;
      },
    )

unfoldable pub login_for_token : HashedToken → Owners → Result AuthError Text
login_for_token token o = ok_or (Dict.lookup token o.token_owners) invalid_credentials

unfoldable pub ensure_authorized_for_crate :
    HashedToken → Text → Owners → Result AuthError (Unit {0})
unfolding login_for_token
ensure_authorized_for_crate token crate_name o = do
  owners ← ok_or (Dict.lookup crate_name o.crate_owners) crate_not_found
  login ← login_for_token token o
  if contains owners login then ok tt else err forbidden
