-- ===== src/PgIndex/Provider/Integrity.antt =====
-- The operations of `PgIndexProvider` keep the integrity of the tables, whatever requests fail
-- (crates/freighter-pg-index/src/lib.rs).
use mathlib.Core.Path.{subst}
use freighter.Base.{
  sym, ℕ, zero, suc, ◌≡◌, ◌⊎◌, Bool, true, false, some, [], Text, text_eq, Option-cases, inl, inr,
  arith, Bytes,
}
use freighter.Base.Acts.{Act, ◌>>=◌, raise, pure}
use freighter.Types.Error.{IndexError}
use freighter.Types.Index.{Semver, Publish}
use freighter.PgIndex.Tables.{Tables}
use freighter.PgIndex.Tables.Reading.{set_yank}
use freighter.PgIndex.Tables.Marking.{set_yank-IsSound}
use freighter.PgIndex.Provider.{yank_inner, yank_crate, unyank_crate, connection}
use freighter.PgIndex.Tables.Integrity.{IsSound}
use freighter.PgIndex.Session.{Database, Session, ask, query, prepare}
use freighter.PgIndex.Publish
use freighter.PgIndex.Publish.{Codec}
use freighter.PgIndex.Publish.Whole.{publish-IsSound}

module _ (S : Semver) (D : Database) (name : Text) (version : S.Version) (val : Bool) where
  -- The tables after a yank are those before it or those of its statement.
  yank_tables :
      (s : Session)
      → ((yank_inner D S name version val s).1.tables ≡ s.tables)
        ⊎ ((n : ℕ) × (set_yank name (S.version_to_string version) val s.tables
              ≡ some (n, (yank_inner D S name version val s).1.tables)))
  unfolding yank_inner connection prepare query ask ◌>>=◌ raise pure
  yank_tables s = elim (Option-cases (D.fault s.asked)) [
    | inr (e, failed) ↦ inl (ground arith)
    | inl fine ↦ elim (Option-cases (D.fault (suc s.asked))) [
      | inr (e, failed) ↦ inl (ground arith)
      | inl prepared ↦ elim (Option-cases (D.fault (suc (suc s.asked)))) [
        | inr (e, failed) ↦ inl (ground arith)
        | inl answered ↦
            elim (Option-cases (set_yank name (S.version_to_string version) val s.tables)) [
              | inl refused ↦ inl (ground arith)
              | inr ((zero, t), given) ↦ inr (zero, ground arith)
              | inr ((suc zero, t), given) ↦ inr (suc zero, ground arith)
              | inr ((suc (suc n), t), given) ↦ inr (suc (suc n), ground arith)
            ]
      ]
    ]
  ]

  yank-IsSound :
      (s : Session) → IsSound s.tables → IsSound (yank_inner D S name version val s).1.tables
  yank-IsSound s v = elim (yank_tables s) [
    | inl same ↦ subst IsSound (sym same) v
    | inr (n, given) ↦
        rw given at (set_yank-IsSound name (S.version_to_string version) val s.tables v)
  ]

abbrev pub no_tables : ℕ → Tables
no_tables clock = record {
  crates = [];
  versions = [];
  features = [];
  dependencies = [];
  keywords = [];
  categories = [];
  crate_keywords = [];
  crate_categories = [];
  next_id = 0;
  clock = clock;
}

-- The tables after any requests, one after another, each of which succeeds or fails anywhere.
module _ {S : Semver} (D : Database) (C : Codec S) (W : Type 0) where
  pub data Served : Tables → Type 0 where
    created : (clock : ℕ) → Served (no_tables clock)
    waited : {t : Tables} (clock : ℕ) → Served t → Served (record t { clock = clock })
    after_publish :
        (s : Session) (p : Publish S) (cksum : Bytes) (end_step : Act W IndexError (Unit {0}))
        → (w : W) → Served s.tables
        → Served (Publish.publish D C p cksum end_step (s, w)).1.0.tables
    after_yank :
        (s : Session) (name : Text) (version : S.Version)
        → Served s.tables
        → Served (yank_crate D S name version s).1.tables
    after_unyank :
        (s : Session) (name : Text) (version : S.Version)
        → Served s.tables
        → Served (unyank_crate D S name version s).1.tables

  clock-IsSound : (t : Tables) (clock : ℕ) → IsSound t → IsSound (record t { clock = clock })
  clock-IsSound t clock v = record {
    crate_ids = v.crate_ids;
    version_ids = v.version_ids;
    versions_of_crates = v.versions_of_crates;
    versions_once = v.versions_once;
    features_of_versions = v.features_of_versions;
    dependencies_of_versions = v.dependencies_of_versions;
    dependencies_on_crates = v.dependencies_on_crates;
  }

  -- Whatever publishes, yanks and unyanks are made of the Postgres index, one after another from
  -- empty tables, and at whichever requests to the database they fail: no version of a crate
  -- stands twice, the ids of crates and versions are below the counter, and what a version, a
  -- feature or a dependency refers to is there.
  pub Served-IsSound : {t : Tables} → Served t → IsSound t
  unfolding yank_crate unyank_crate
  Served-IsSound (created clock) = record {
    crate_ids = tt;
    version_ids = tt;
    versions_of_crates = tt;
    versions_once = tt;
    features_of_versions = tt;
    dependencies_of_versions = tt;
    dependencies_on_crates = tt;
  }
  Served-IsSound (waited {t} clock r) = clock-IsSound t clock (Served-IsSound r)
  Served-IsSound (after_publish s p cksum end_step w r) =
      publish-IsSound D C p cksum end_step s w (Served-IsSound r)
  Served-IsSound (after_yank s name version r) =
      yank-IsSound S D name version true s (Served-IsSound r)
  Served-IsSound (after_unyank s name version r) =
      yank-IsSound S D name version false s (Served-IsSound r)
