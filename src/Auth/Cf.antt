-- ===== src/Auth/Cf.antt =====
-- `CfAccess` and `CfAuthProvider` of crates/freighter-auth/src/cf_access.rs and cf_backend.rs:
-- tokens are JSON web tokens, checked by keys that are downloaded again every hour.
pub mod Rounds
pub mod Access
use freighter.Base.{
  text_beq, ℕ, zero, suc, ◌+◌, ◌*◌, Bool, true, false, not, ◌&&◌, ◌||◌, Option, none, some, List,
  [], ◌∷◌, ◌++◌, Text, text_eq, codes, Bytes, Result, ok, err, ok_or, map_err, length, ltb, eqb,
  contains, is_some, unwrap_or, strip_prefix, ends_with, trim_end_matches, if◌then◌else◌,
}
use freighter.Base.Acts.{Act, ◌>>=◌, ◌>>◌, lift, pure, raise, gets, modify}
use freighter.Base.Dict
use freighter.Base.Dict.{Dict}
use freighter.Types.Error.{
  AnyError, AuthError, unauthorized, forbidden, invalid_credentials, unimplemented, service_error,
}
use freighter.Auth.Platform.{ListedOwner}
use freighter.Auth.Provider.{
  HeaderMap, default_token_from_headers, status_bad_request, AuthProvider,
}

pub data PublicKeyUse : Type 0 where
  signature : PublicKeyUse
  other : Text → PublicKeyUse

-- One key of a `JwkSet`, with what only `jsonwebtoken` reads of it.
pub record Jwk : Type 0 where
  pub public_key_use : Option PublicKeyUse
  pub key_id : Option Text
  pub material : Bytes

-- Claims in the token
pub record Claims : Type 0 where
  pub common_name : Option Text
  pub sub : Option Text

-- A cookie of the header: its name, and `value_raw`.
pub record Cookie : Type 0 where
  pub name : Text
  pub value_raw : Option Text

-- `jsonwebtoken`, `reqwest`, `cookie` and the clock. An `Instant` is a number of nanoseconds. The
-- world is what the network and the clock depend on: both move it.
pub record Platform : Type 1 where
  pub World : Type 0
  pub Key : Type 0
  pub now : World → ℕ × World
  pub get_jwk_set : Text → World → Result AnyError (List Jwk) × World
  pub from_jwk : Jwk → Result AnyError Key
  pub decode_header : Text → Option (Option Text)
  pub decode : Text → Key → Text → World → Option Claims
  pub split_parse : Text → List (Option Cookie)

abbrev pub second : ℕ
second = 1_000_000_000

-- `REFRESH_DURATION`
abbrev pub refresh_duration : ℕ
refresh_duration = 3600 * second

-- `UserId::is_service_token`
unfoldable pub is_service_token : Text → Bool
is_service_token id = ends_with (codes ".access") id

-- The user of the claims. A service token has an empty `sub`.
unfoldable pub user_of_claims : Claims → Result AuthError Text
user_of_claims claims =
    let sub : Option Text = elim claims.sub [
      | none ↦ none
      | some s ↦ if eqb (length s) 0 then none else some s
    ] in
    let chosen : Option Text = elim sub [ some s ↦ some s | none ↦ claims.common_name ] in
    elim chosen [
      | none ↦ err (service_error (codes "empty claims.sub" ∷ []))
      | some id ↦
          if (if is_service_token id then is_some sub else not (is_some sub))
          then err (
              service_error
                (codes "claims.sub doesn't match claims.common_name service token pattern" ∷ []))
          else ok id
    ]

pub record Config : Type 0 where
  pub auth_team_base_url : Text
  pub auth_audience : Text
  pub auth_publish_access_ids : List Text

abbrev pub is_signature : Jwk → Bool
is_signature k = elim k.public_key_use [ some PublicKeyUse.signature ↦ true | _ ↦ false ]

-- The loop of `token_from_headers` over the cookies.
unfoldable pub authorization_cookie : List (Option Cookie) → Result ℕ (Option Text)
authorization_cookie [] = ok none
authorization_cookie (none ∷ cookies) = err status_bad_request
authorization_cookie (some c ∷ cookies) =
    let rest = authorization_cookie cookies in
    if text_beq c.name (codes "CF_Authorization") then ok c.value_raw else rest

-- The page that `register_supported` shows.
abbrev registration_page : Text
registration_page =
    codes
      "<h1>Registration is only via <code>cloudflared</code></h1>\n<style>var{color:red}</style>\n<p>Run:</p>\n<pre>\ncloudflared access login <var>hostname of the registry</var> | fgrep . | cargo login --registry=<var>name of the registry</var>\n</pre>"

module _ (P : Platform) where
  pub record CfAccess : Type 0 where
    pub jwks_url : Text
    pub audience : Text
    pub next_fetch : ℕ
    pub keys : Dict Text P.Key
    pub world : P.World

  -- The two filters and the `collect` of `refresh`; a later key replaces one with the same id.
  unfoldable pub usable_keys : Dict Text P.Key → List Jwk → Dict Text P.Key
  usable_keys keys [] = keys
  usable_keys keys (k ∷ set) =
      usable_keys
        (if is_signature k
          then (elim (P.from_jwk k) [
            | err e ↦ keys
            | ok key ↦ elim k.key_id [ none ↦ keys | some kid ↦ Dict.insert kid key keys ]
          ])
          else keys)
        set

  pub record CfAuth : Type 0 where
    pub team_base_url : Text
    pub access : CfAccess
    pub publish_access_ids : List Text

abbrev pub no_usable_keys : AnyError
no_usable_keys = codes "no usable keys" ∷ []

module _ {P : Platform} where
  -- `CfAccess::new`
  unfoldable pub new_access : Text → Text → P.World → Result AnyError (CfAccess P) × P.World
  new_access team_base_url audience w =
      if ltb (length team_base_url) 13
        || (not (is_some (strip_prefix (codes "https://") team_base_url))
            || eqb (length audience) 0)
      then (err (codes "invalid cf-access config" ∷ []), w)
      else let (t, w') = P.now w in
        (
          ok (record {
            jwks_url = trim_end_matches b'/' team_base_url ++ codes "/cdn-cgi/access/certs";
            audience = audience;
            next_fetch = t;
            keys = [];
            world = w';
          }),
          w',
        )

  -- `CfAuthProvider::new`
  unfoldable pub new : Config → P.World → Result AuthError (CfAuth P) × P.World
  new config w =
      let (made, w') = new_access config.auth_team_base_url config.auth_audience w in
      (
        elim made [
          | err e ↦ err (service_error e)
          | ok access ↦ ok (record {
            team_base_url = config.auth_team_base_url;
            access = access;
            publish_access_ids = config.auth_publish_access_ids;
          })
        ],
        w',
      )

  unfoldable pub now : Act (CfAccess P) AnyError ℕ
  now s = let (t, w) = P.now s.world in (ok t, record s { world = w })

  unfoldable pub download : Act (CfAccess P) AnyError (List Jwk)
  download s = let (set, w) = P.get_jwk_set s.jwks_url s.world in (set, record s { world = w })

  -- The part of `refresh` behind the test of `next_fetch`.
  unfoldable pub fetch : Act (CfAccess P) AnyError (Unit {0})
  fetch = do
    set ← download
    modify (λ s. record s { keys = usable_keys P [] set })
    gets (λ s. if eqb (length s.keys) 0 then err no_usable_keys else ok tt)
    later ← now
    modify (λ s. record s { next_fetch = later + refresh_duration })

  unfoldable pub refresh : Act (CfAccess P) AnyError (Unit {0})
  refresh s =
      let (t, w) = P.now s.world in
      if ltb t s.next_fetch
      then (if eqb (length s.keys) 0 then err no_usable_keys else ok tt, record s { world = w })
      else fetch (record s { next_fetch = t + second; world = w })

  -- The loop of `validated_user_id`, with the rounds that may still be made.
  unfoldable pub ready : ℕ → CfAccess P → Option (Result AuthError (Unit {0}) × CfAccess P)
  ready zero s = none
  ready (suc n) s =
      let (t, w) = P.now s.world in
      let (refreshed, s') = refresh (record s { world = w }) in
      let rest = ready n s' in
      if ltb s.next_fetch t
      then (elim refreshed [ err e ↦ some (err (service_error e), s') | ok _ ↦ rest ])
      else some (ok tt, record s { world = w })

  -- The part of `validated_user_id` behind its loop.
  unfoldable pub user_of_token : Text → Text → CfAccess P → Result AuthError Text
  user_of_token token key_id s = elim (Dict.lookup key_id s.keys) [
    | none ↦ err invalid_credentials
    | some key ↦ elim (P.decode token key s.audience s.world) [
      | none ↦ err unauthorized
      | some claims ↦ user_of_claims claims
    ]
  ]

  -- `CfAccess::validated_user_id`, with the rounds that its loop may make; `none` if it is still
  -- waiting for keys then.
  unfoldable pub user_in_rounds :
      ℕ → Text → CfAccess P → Option (Result AuthError Text × CfAccess P)
  user_in_rounds n token s = elim (P.decode_header token) [
    | none ↦ some (err invalid_credentials, s)
    | some none ↦ some (err invalid_credentials, s)
    | some (some key_id) ↦ elim (ready n s) [
      | none ↦ none
      | some (err e, s') ↦ some (err e, s')
      | some (ok _, s') ↦ some (user_of_token token key_id s', s')
    ]
  ]

  -- Two rounds are enough (Rounds.antt).
  unfoldable pub validated_user_id : Text → Act (CfAuth P) AuthError Text
  validated_user_id token c = elim (user_in_rounds 2 token c.access) [
    | none ↦ (err (service_error []), c)
    | some (user, access) ↦ (user, record c { access = access })
  ]

  unfoldable pub check_user : Text → Act (CfAuth P) AuthError (Unit {0})
  check_user token = do id ← validated_user_id token; pure tt

  unfoldable pub publish : Text → Text → Act (CfAuth P) AuthError (Unit {0})
  publish token crate_name = do
    id ← validated_user_id token
    gets (λ c.
        if is_service_token id && contains c.publish_access_ids id then ok tt else err forbidden)

  unfoldable pub list_owners : Text → Text → Act (CfAuth P) AuthError (List ListedOwner)
  list_owners token crate_name = do
    id ← validated_user_id token
    gets (λ c. ok (record { id = 0; login = c.team_base_url; name = none } ∷ []))

  unfoldable pub remove_owners : Text → List Text → Text → Act (CfAuth P) AuthError (Unit {0})
  remove_owners token users crate_name = do id ← validated_user_id token; raise unimplemented

  unfoldable pub healthcheck : Act (CfAuth P) AnyError (Unit {0})
  healthcheck c = let (r, access) = refresh c.access in (r, record c { access = access })

unfoldable pub token_from_headers : Platform → HeaderMap → Result ℕ (Option Text)
token_from_headers P headers = elim (default_token_from_headers headers) [
  | err status ↦ err status
  | ok (some res) ↦ ok (some (unwrap_or (strip_prefix (codes "CF_Authorization=") res) res))
  | ok none ↦ elim (Dict.lookup (codes "cookie") headers.values) [
    | none ↦ ok none
    | some bytes ↦ elim (headers.to_str bytes) [
      | none ↦ err status_bad_request
      | some cookies ↦ authorization_cookie (P.split_parse cookies)
    ]
  ]
]

-- `impl AuthProvider for CfAuthProvider`
abbrev pub cf_provider : Platform → AuthProvider
cf_provider P = record {
  State = CfAuth P;
  healthcheck = healthcheck;
  register = λ _. raise unimplemented;
  register_supported = err registration_page;
  list_owners = list_owners;
  add_owners = λ token _ _. check_user token;
  remove_owners = remove_owners;
  publish = publish;
  auth_yank = λ token _. check_user token;
  auth_index_fetch = λ token _. check_user token;
  auth_crate_download = λ token _. check_user token;
  auth_view_full_index = check_user;
  auth_config = check_user;
  token_from_headers = token_from_headers P;
}
