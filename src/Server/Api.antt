-- ===== src/Server/Api.antt =====
-- The other handlers of crates/freighter-server/src/api.rs, and `list` of lib.rs.
pub mod Guards
use freighter.Base.{
  ℕ, leb, ◌≡◌, Bool, true, false, not, Option, none, some, List, [], ◌∷◌, Text, codes, Result, ok,
  err, map_err, if◌then◌else◌,
}
use freighter.Base.Acts.{Act}
use freighter.Types.Error.{AuthError, IndexError, Rejection, plain, auth_response, index_response}
use freighter.Types.Index.{Semver, SearchResults, ListAllCrateEntry}
use freighter.Types.IndexProvider.{IndexProvider, ListQuery}
use freighter.Storage.Crates.{StorageProvider}
use freighter.Auth.Platform.{ListedOwner}
use freighter.Auth.Provider.{AuthProvider, HeaderMap}
use freighter.Server.Service.{ServiceConfig, Platform, Service, required_token, auth_token_missing}

-- `YankResult`, `OwnerList`, `ChangedOwnership`
pub record YankResult : Type 0 where
  pub is_ok : Bool

pub record OwnerList : Type 0 where
  pub users : List ListedOwner

pub record ChangedOwnership : Type 0 where
  pub is_ok : Bool
  pub msg : Text

unfoldable pub with_msg : Text → ChangedOwnership
with_msg msg = record { is_ok = true; msg = msg }

-- `map_or(10, |x| x.max(100))`
unfoldable pub search_limit : Option ℕ → ℕ
search_limit none = 10
search_limit (some x) = if leb x 100 then 100 else x

module _ {S : Semver} (X : Platform S) (A : AuthProvider) (I : IndexProvider S)
    (T : StorageProvider) where
  -- A call of the auth provider behind `?`: the state after it, and the rest if it succeeds.
  abbrev pub with_auth :
      {B C : Type 0}
      → Result AuthError B × A.State
      → (B → Act (Service A I T) Rejection C)
      → Act (Service A I T) Rejection C
  with_auth (err e, auth) k s = (err (auth_response X.error_id e), record s { auth = auth })
  with_auth (ok b, auth) k s = k b (record s { auth = auth })

  -- The end of a handler: a call of the index that changes it.
  abbrev pub with_index :
      {C : Type 0} → Act I.State IndexError (Unit {0}) → C → Act (Service A I T) Rejection C
  with_index m c s =
      let (r, index) = m s.index in
      (elim r [ err e ↦ err (index_response e) | ok _ ↦ ok c ], record s { index = index })

  -- A guard on the token.
  abbrev pub with_token :
      {C : Type 0}
      → HeaderMap
      → (Text → Act (Service A I T) Rejection C)
      → Act (Service A I T) Rejection C
  with_token headers k s = elim (required_token auth_token_missing A headers) [
    | err e ↦ (err e, s)
    | ok token ↦ k token s
  ]

  unfoldable pub yank : HeaderMap → Text → S.Version → Act (Service A I T) Rejection YankResult
  yank headers name version = with_token headers λ token s.
      with_auth (A.auth_yank token name s.auth)
        (λ _. with_index (I.yank_crate name version) (record { is_ok = true })) s

  unfoldable pub unyank : HeaderMap → Text → S.Version → Act (Service A I T) Rejection YankResult
  unyank headers name version = with_token headers λ token s.
      with_auth (A.auth_yank token name s.auth)
        (λ _. with_index (I.unyank_crate name version) (record { is_ok = true })) s

  unfoldable pub list_owners : HeaderMap → Text → Act (Service A I T) Rejection OwnerList
  list_owners headers name = with_token headers λ token s.
      with_auth (A.list_owners token name s.auth) (λ users s. (ok (record { users = users }), s)) s

  unfoldable pub add_owners :
      HeaderMap → Text → List Text → Act (Service A I T) Rejection ChangedOwnership
  add_owners headers name users = with_token headers λ token s.
      with_auth (A.add_owners token users name s.auth)
        (λ _ s. (ok (with_msg (codes "owners successfully added")), s)) s

  unfoldable pub remove_owners :
      HeaderMap → Text → List Text → Act (Service A I T) Rejection ChangedOwnership
  remove_owners headers name users = with_token headers λ token s.
      with_auth (A.remove_owners token users name s.auth)
        (λ _ s. (ok (with_msg (codes "owners successfully removed")), s)) s

  unfoldable pub register : Text → Act (Service A I T) Rejection Text
  register username s =
      if not s.config.allow_registration
      then (err (plain 401 (codes "Registration disabled")), s)
      else with_auth (A.register username s.auth) (λ token s. (ok token, s)) s

  -- The check of `search` and `list`, with the text of a missing token.
  abbrev pub view_guard :
      {C : Type 0}
      → Text
      → HeaderMap
      → Act (Service A I T) Rejection C
      → Act (Service A I T) Rejection C
  view_guard missing headers k s =
      if s.config.auth_required
      then (elim (required_token missing A headers) [
        | err e ↦ (err e, s)
        | ok token ↦ with_auth (A.auth_view_full_index token s.auth) (λ _. k) s
      ])
      else k s

  unfoldable pub search :
      HeaderMap → Text → Option ℕ → Act (Service A I T) Rejection (SearchResults S)
  search headers q per_page =
      view_guard auth_token_missing headers
        (λ s. (map_err index_response (I.search q (search_limit per_page) s.index), s))

  -- `list` of lib.rs
  unfoldable pub list :
      HeaderMap → ListQuery → Act (Service A I T) Rejection (List (ListAllCrateEntry S))
  list headers query =
      view_guard [] headers (λ s. (map_err index_response (I.list query s.index), s))
