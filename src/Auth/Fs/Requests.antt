-- ===== src/Auth/Fs/Requests.antt =====
-- Sequences of calls of `FsAuthProvider`.
use freighter.Base.{List, [], ◌∷◌, Text}
use freighter.Auth.Platform.{Platform}
use freighter.Auth.Fs
use freighter.Auth.Fs.{FsAuth, ensure_valid_token}
use freighter.Auth.Fs.Sound.{IsPlatform, IsSound}
use freighter.Auth.Fs.Operations.{
  register-IsSound, list_owners-IsSound, add_owners-IsSound, remove_owners-IsSound, publish-IsSound,
  auth_yank-IsSound, ensure_valid_token-IsSound,
}

-- A call of the provider. The four read-only checks of a token are one.
pub data Request : Type 0 where
  register : Text → Request
  list_owners : Text → Text → Request
  add_owners remove_owners : Text → List Text → Text → Request
  publish auth_yank : Text → Text → Request
  check_token : Text → Request

module _ {P : Platform} where
  pub handle : Request → FsAuth P → FsAuth P
  handle (Request.register username) s = (Fs.register username s).1
  handle (Request.list_owners token c) s = (Fs.list_owners token c s).1
  handle (Request.add_owners token users c) s = (Fs.add_owners token users c s).1
  handle (Request.remove_owners token users c) s = (Fs.remove_owners token users c s).1
  handle (Request.publish token c) s = (Fs.publish token c s).1
  handle (Request.auth_yank token c) s = (Fs.auth_yank token c s).1
  handle (Request.check_token token) s = (ensure_valid_token token s).1

  pub serve : List Request → FsAuth P → FsAuth P
  unfolding handle
  serve [] s = s
  serve (r ∷ rs) s = serve rs (handle r s)

  handle-IsSound : IsPlatform P → (r : Request) (s : FsAuth P) → IsSound s → IsSound (handle r s)
  unfolding handle
  handle-IsSound laws (Request.register username) s h = ((register-IsSound laws username).at s h).0
  handle-IsSound laws (Request.list_owners token c) s h =
      ((list_owners-IsSound laws token c).at s h).0
  handle-IsSound laws (Request.add_owners token us c) s h =
      ((add_owners-IsSound laws token us c).at s h).0
  handle-IsSound laws (Request.remove_owners token us c) s h =
      ((remove_owners-IsSound laws token us c).at s h).0
  handle-IsSound laws (Request.publish token c) s h = ((publish-IsSound laws token c).at s h).0
  handle-IsSound laws (Request.auth_yank token c) s h = ((auth_yank-IsSound laws token c).at s h).0
  handle-IsSound laws (Request.check_token token) s h =
      ((ensure_valid_token-IsSound laws token).at s h).0

  -- On a platform that keeps its promises, a sound provider stays sound whatever calls are made of
  -- it, successful or not: in memory and in the file every crate has at least one owner, and every
  -- login with a token is known as taken.
  pub serve-IsSound :
      IsPlatform P → (rs : List Request) (s : FsAuth P) → IsSound s → IsSound (serve rs s)
  unfolding serve
  serve-IsSound laws [] s h = h
  serve-IsSound laws (r ∷ rs) s h = serve-IsSound laws rs (handle r s) (handle-IsSound laws r s h)
