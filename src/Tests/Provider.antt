-- ===== src/Tests/Provider.antt =====
-- Examples of the file provider: a registration, a first publish, and refusals.
use freighter.Base.{
  text_beq, ◌≡◌, refl, none, some, List, [], ◌∷◌, Text, text_eq, codes, ok, err, ◌∙◌, arith, ap,
  ◌++◌,
}
use freighter.Base.Dict
use mathlib.Core.Path.{subst}
use freighter.Base.Acts.{◌>>=◌, lift, pure, gets, modify}
use freighter.Types.Error.{forbidden}
use freighter.Auth.Owners
use freighter.Auth.Owners.{
  Owners, no_owners, ensure_authorized_for_crate, filled_tokens, reverse_tokens,
}
use freighter.Auth.Owners.Laws.{IsValid}
use freighter.Auth.Platform.{token_to_str, write_owners}
use freighter.Auth.Fs
use freighter.Auth.Fs.{
  FsAuth, load_owners_file, sync_owners, token_from_str, hash_token, ensure_valid_token, owners_mut,
  random_token,
}
use freighter.Auth.Fs.Sound.{IsSound, no_owners-IsValid}
use freighter.Auth.Fs.Access.{token_from_str-token_to_str, register_token_valid}
use freighter.Auth.Fs.Requests.{Request, serve, serve-IsSound}
use freighter.Tests.Auth.{disk, disk-IsPlatform, plain_base64-IsCodec, zeros}

abbrev ann : Text
ann = codes "ann"

abbrev bob : Text
bob = codes "bob"

abbrev with_owners : Owners → FsAuth disk
with_owners o = record {
  owners_file_path = codes "owners.json";
  owners = some o;
  pepper = 1 ∷ [];
  world = none;
}

abbrev token : Text
token = token_to_str disk (zeros 21)

-- Ann holds the token that is made of zeros.
abbrev ann_registered : Owners
ann_registered = record {
  token_owners = (1 ∷ zeros 21, ann) ∷ [];
  crate_owners = [];
  owner_tokens = (ann, 1 ∷ zeros 21) ∷ [];
}

abbrev owned_by : Text → Owners
owned_by login = record ann_registered { crate_owners = (codes "serde", login ∷ []) ∷ [] }

empty-IsSound : IsSound (with_owners no_owners)
unfolding load_owners_file
empty-IsSound = record {
  memory = λ o h. subst IsValid (ground arith) no_owners-IsValid;
  file = λ o h. subst IsValid (ground arith) no_owners-IsValid;
}

abbrev calls : List Request
calls =
    Request.register ann
    ∷ Request.publish token (codes "serde")
    ∷ Request.remove_owners token (ann ∷ []) (codes "serde")
    ∷ []

serve-IsSound_example : IsSound (serve calls (with_owners no_owners))
serve-IsSound_example = serve-IsSound disk-IsPlatform calls (with_owners no_owners) empty-IsSound

abbrev registering : FsAuth disk
registering = (Fs.register ann (with_owners no_owners)).1

first_call : Fs.register ann (with_owners no_owners) ≡ (ok token, registering)
unfolding Fs.register Owners.register reverse_tokens owners_mut random_token hash_token sync_owners
    write_owners ◌>>=◌ Dict.lookup Dict.insert lift pure gets modify token_to_str
first_call = refl

register_token_valid_example : (ensure_valid_token token registering).0 ≡ ok tt
register_token_valid_example =
    register_token_valid ann token (with_owners no_owners) registering no_owners disk-IsPlatform
      refl first_call

token_hashed : (s : FsAuth disk) → s.pepper ≡ 1 ∷ [] → token_from_str token s ≡ ok (1 ∷ zeros 21)
unfolding hash_token
token_hashed s h =
    token_from_str-token_to_str s (zeros 21) plain_base64-IsCodec refl
    ∙ ap (λ p. ok (p ++ zeros 21)) h

bob_refuses :
    ensure_authorized_for_crate (1 ∷ zeros 21) (codes "serde") (owned_by bob) ≡ err forbidden
unfolding ensure_authorized_for_crate Dict.lookup text_beq
bob_refuses = refl
