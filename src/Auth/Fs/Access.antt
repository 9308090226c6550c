-- ===== src/Auth/Fs/Access.antt =====
-- Tokens and permissions: who gets past `FsAuthProvider`, and what a refused call changes.
use freighter.Base.{
  ◌≡◌, none, some, List, [], ◌∷◌, Text, text_eq, Bytes, ok, err, length, arith, strip_prefix-append,
  ==_refl,
}
use freighter.Base.Acts.{◌>>=◌}
use freighter.Base.Dict
use freighter.Types.Error.{AuthError}
use freighter.Auth.Base64
use freighter.Auth.Base64.{IsCodec}
use freighter.Auth.Owners.{HashedToken, Owners, login_for_token, ensure_authorized_for_crate}
use freighter.Auth.Owners.Laws.{login-register}
use freighter.Auth.Platform.{Platform, token_prefix, with_crate_owners, claim_crate, token_to_str}
use freighter.Auth.Fs.{
  FsAuth, load_owners_file, owners_mut, sync_owners, token_from_str, hash_token, ensure_valid_token,
  random_token,
}
use freighter.Auth.Fs
use freighter.Auth.Fs.Sound.{IsPlatform}

module _ {P : Platform} where
  -- With a lawful codec, a token of 21 bytes that was written out is read back as its own hash.
  pub token_from_str-token_to_str :
      (s : FsAuth P) (bare : Bytes)
      → IsCodec P.base64
      → length bare ≡ 21
      → token_from_str (token_to_str P bare) s ≡ ok (hash_token s bare)
  unfolding token_from_str token_to_str
  token_from_str-token_to_str s bare codec h = ground (
    arith,
    strip_prefix-append token_prefix (Base64.encode P.base64 bare),
    Base64.decode-encode P.base64 codec bare,
  )

  -- On a platform that keeps its promises and with the owners in memory, the token that a
  -- successful `register` returns is accepted by `ensure_valid_token`.
  pub register_token_valid :
      (username token : Text) (s s' : FsAuth P) (o : Owners)
      → IsPlatform P
      → s.owners ≡ some o
      → Fs.register username s ≡ (ok token, s')
      → (ensure_valid_token token s').0 ≡ ok tt
  unfolding Fs.register ensure_valid_token owners_mut random_token sync_owners login_for_token
      hash_token ◌>>=◌
  register_token_valid username token s s' o laws ho h =
      let bare = (P.random_bytes 21 s.world).0 in
      ground (
        arith,
        login-register username (hash_token s bare) o,
        token_from_str-token_to_str s' bare laws.codec (laws.random_length 21 s.world),
      )

  module _ (token c : Text) (s : FsAuth P) (o : Owners) (hashed : HashedToken)
      (in_memory : s.owners ≡ some o) (valid : token_from_str token s ≡ ok hashed) where
    -- With the owners in memory and a token of the right form, `add_owners`, `remove_owners` and
    -- `auth_yank` fail with the reason for which the token is not authorized for the crate, and
    -- change nothing.
    unauthorized_unchanged :
        (users : List Text) (e : AuthError)
        → ensure_authorized_for_crate hashed c o ≡ err e
        → (Fs.add_owners token users c s ≡ (err e, s))
          × (Fs.remove_owners token users c s ≡ (err e, s))
          × (Fs.auth_yank token c s ≡ (err e, s))
    unfolding Fs.add_owners Fs.remove_owners Fs.auth_yank owners_mut ◌>>=◌
    unauthorized_unchanged users e h = (ground arith, ground arith, ground arith)

    -- With the owners in memory, a known token that publishes a crate without owners becomes its
    -- only owner in memory; the file is not written.
    publish_first :
        (login : Text)
        → Dict.lookup hashed o.token_owners ≡ some login
        → Dict.lookup c o.crate_owners ≡ none
        → Fs.publish token c s
          ≡ (ok tt, record s { owners = some (with_crate_owners c (login ∷ []) o) })
    unfolding Fs.publish owners_mut claim_crate login_for_token ensure_authorized_for_crate ◌>>=◌
    publish_first login known fresh =
        ground (arith, ==_refl c, ==_refl login, Dict.lookup-insert c c (login ∷ []) o.crate_owners)
