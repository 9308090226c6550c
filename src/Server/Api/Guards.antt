-- ===== src/Server/Api/Guards.antt =====
-- What the handlers check before they act.
use freighter.Base.{ℕ, ◌≤◌, ◌≡◌, ◌⊎◌, inl, inr, some, Text, ok, err, Result-cases, arith}
use freighter.Types.Error.{Rejection, auth_response}
use freighter.Types.Index.{Semver}
use freighter.Types.IndexProvider.{IndexProvider}
use freighter.Storage.Crates.{StorageProvider}
use freighter.Auth.Provider.{AuthProvider, HeaderMap}
use freighter.Server.Service.{Platform, Service, required_token, auth_token_missing}
use freighter.Server.Api.{yank, unyank, search_limit}

module _ {S : Semver} (X : Platform S) (A : AuthProvider) (I : IndexProvider S)
    (T : StorageProvider) where
  -- Either a yank and an unyank are both refused and leave the index as it was, or the headers
  -- hold a token that the auth provider accepts for the crate and each changes the index as
  -- `yank_crate` and `unyank_crate` do.
  yank_gate :
      (headers : HeaderMap) (name : Text) (version : S.Version) (s : Service A I T)
      → ((e : Rejection) × ((yank X A I T headers name version s).0 ≡ err e)
          × ((unyank X A I T headers name version s).0 ≡ err e)
          × ((yank X A I T headers name version s).1.index ≡ s.index)
          × ((unyank X A I T headers name version s).1.index ≡ s.index))
        ⊎ ((token : Text) × (required_token auth_token_missing A headers ≡ ok token)
            × ((A.auth_yank token name s.auth).0 ≡ ok tt)
            × ((yank X A I T headers name version s).1.index
                ≡ (I.yank_crate name version s.index).1)
            × ((unyank X A I T headers name version s).1.index
                ≡ (I.unyank_crate name version s.index).1))
  unfolding yank unyank
  yank_gate headers name version s =
      elim (Result-cases (required_token auth_token_missing A headers)) [
        | inr (e, none_given) ↦ inl (e, ground arith, ground arith, ground arith, ground arith)
        | inl (token, given) ↦ elim (Result-cases (A.auth_yank token name s.auth).0) [
          | inr (e, refused) ↦
              inl
                (auth_response X.error_id e, ground arith, ground arith, ground arith, ground arith)
          | inl (_, granted) ↦ inr (token, given, granted, ground arith, ground arith)
        ]
      ]

-- A number of results that a client asks for sets a limit of at least 100 and of at least that
-- number.
search_limit_at_least : (x : ℕ) → (100 ≤ search_limit (some x)) × (x ≤ search_limit (some x))
unfolding search_limit
search_limit_at_least x = ground arith
