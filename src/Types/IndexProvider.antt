-- ===== src/Types/IndexProvider.antt =====
-- The trait `IndexProvider` of crates/freighter-api-types/src/index/mod.rs, as an interface, and the
-- contract that its comments and its users rely on.
use freighter.Base.{ℕ, ◌≡◌, ◌⊎◌, Option, List, Text, Bytes, Result, ok, err}
use freighter.Base.Acts.{Act}
use freighter.Types.Error.{AnyError, IndexError}
use freighter.Types.Index.{
  Semver, Publish, SparseEntries, CrateVersionExists, CompletedPublication, SearchResults,
  ListAllCrateEntry,
}

-- `ListQuery`
pub record ListQuery : Type 0 where
  pub per_page : Option ℕ
  pub page : Option ℕ

-- The trait. `publish` runs `end_step` on a world of the caller's.
pub record IndexProvider (S : Semver) : Type 1 where
  pub State : Type 0
  pub healthcheck : Act State AnyError (Unit {0})
  pub get_sparse_entry : Text → State → Result IndexError (SparseEntries S)
  pub confirm_existence : Text → S.Version → State → Result IndexError CrateVersionExists
  pub yank_crate : Text → S.Version → Act State IndexError (Unit {0})
  pub unyank_crate : Text → S.Version → Act State IndexError (Unit {0})
  pub search : Text → ℕ → State → Result IndexError (SearchResults S)
  pub list : ListQuery → State → Result IndexError (List (ListAllCrateEntry S))
  pub publish :
      (W : Type 0)
      → Publish S
      → Bytes
      → Act W IndexError (Unit {0})
      → Act (State × W) IndexError CompletedPublication

-- "`end_step` is a future to run after the crate has been submitted to the index, but before any
-- transactional commits": it is run once or not at all, and a publish succeeds only behind it.
pub record RunsEndStep {S : Semver} (I : IndexProvider S) : Type 1 where
  pub accepted :
      (W : Type 0) (p : Publish S) (cksum : Bytes) (end_step : Act W IndexError (Unit {0}))
      (s s' : I.State) (w w' : W) (r : CompletedPublication)
      → I.publish W p cksum end_step (s, w) ≡ (ok r, (s', w'))
      → end_step w ≡ (ok tt, w')
  pub refused :
      (W : Type 0) (p : Publish S) (cksum : Bytes) (end_step : Act W IndexError (Unit {0}))
      (s s' : I.State) (w w' : W) (e : IndexError)
      → I.publish W p cksum end_step (s, w) ≡ (err e, (s', w'))
      → (w' ≡ w) ⊎ (w' ≡ (end_step w).1)
