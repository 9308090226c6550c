-- ===== src/Server/Root/Health.antt =====
-- What the health check of crates/freighter-server/src/lib.rs says, and when.
use freighter.Base.{◌≡◌, ◌⊎◌, true, false, List, [], ◌∷◌, ◌++◌, Text, codes, ok, err}
use freighter.Types.Error.{AnyError}
use freighter.Types.Index.{Semver}
use freighter.Types.IndexProvider.{IndexProvider}
use freighter.Storage.Crates.{StorageProvider}
use freighter.Auth.Provider.{AuthProvider}
use freighter.Server.Service.{Service}
use freighter.Server.Root.{Check, Timing, label, check_service}

module _ {S : Semver} (A : AuthProvider) (I : IndexProvider S) (T : StorageProvider)
    (t : Timing A I T) where
  -- A check that ends well and in time.
  abbrev pub Fine : Check → Service A I T → Type 0
  Fine c s = (t.timed_out c ≡ false) × ((check_service A I T c s).0 ≡ ok tt)

  -- A check that does not, and what is said of it.
  abbrev pub Blamed : Check → Service A I T → Text → Type 0
  Blamed c s text =
      ((t.timed_out c ≡ true) × (text ≡ label c ++ codes " timed out"))
      ⊎ ((t.timed_out c ≡ false)
          × (e : AnyError) × ((check_service A I T c s).0 ≡ err e)
          × (text ≡ label c ++ codes " failed"))

  -- All checks end well and in time, one after another.
  abbrev pub Passed : List Check → Service A I T → Service A I T → Type 0
  Passed [] s s' = s' ≡ s
  Passed (c ∷ cs) s s' = Fine c s × Passed cs (check_service A I T c s).1 s'

  -- The first check that does not, behind others that do.
  abbrev pub Failed : List Check → Service A I T → Text → Type 0
  Failed [] s text = ⊥
  Failed (c ∷ cs) s text = Blamed c s text ⊎ (Fine c s × Failed cs (check_service A I T c s).1 text)
