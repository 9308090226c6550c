-- ===== src/Auth/Provider.antt =====
-- The trait `AuthProvider` of crates/freighter-auth/src/lib.rs, as an interface, and its default
-- methods.
use freighter.Base.{ℕ, Option, none, some, List, Text, text_eq, codes, Bytes, Result, ok, err}
use freighter.Base.Acts.{Act, raise}
use freighter.Base.Dict
use freighter.Base.Dict.{Dict}
use freighter.Types.Error.{AnyError, AuthError, unimplemented}
use freighter.Auth.Platform.{ListedOwner}

-- The first value of each header, under its name in lower case. `to_str` is `HeaderValue::to_str`,
-- which fails on bytes that are not visible ASCII.
pub record HeaderMap : Type 0 where
  pub values : Dict Text Bytes
  pub to_str : Bytes → Option Text

abbrev pub status_bad_request : ℕ
status_bad_request = 400

-- `default_token_from_headers`
unfoldable pub default_token_from_headers : HeaderMap → Result ℕ (Option Text)
default_token_from_headers headers = elim (Dict.lookup (codes "authorization") headers.values) [
  | none ↦ ok none
  | some auth ↦ elim (headers.to_str auth) [ none ↦ err status_bad_request | some t ↦ ok (some t) ]
]

pub record AuthProvider : Type 1 where
  pub State : Type 0
  pub healthcheck : Act State AnyError (Unit {0})
  pub register : Text → Act State AuthError Text
  pub register_supported : Result Text (Unit {0})
  pub list_owners : Text → Text → Act State AuthError (List ListedOwner)
  pub add_owners : Text → List Text → Text → Act State AuthError (Unit {0})
  pub remove_owners : Text → List Text → Text → Act State AuthError (Unit {0})
  pub publish : Text → Text → Act State AuthError (Unit {0})
  pub auth_yank : Text → Text → Act State AuthError (Unit {0})
  pub auth_index_fetch : Text → Text → Act State AuthError (Unit {0})
  pub auth_crate_download : Text → Text → Act State AuthError (Unit {0})
  pub auth_view_full_index : Text → Act State AuthError (Unit {0})
  pub auth_config : Text → Act State AuthError (Unit {0})
  pub token_from_headers : HeaderMap → Result ℕ (Option Text)

-- The methods that a provider need not write: everything is refused.
unfoldable pub default_check : {State : Type 0} → Act State AuthError (Unit {0})
unfolding raise
default_check = raise unimplemented
