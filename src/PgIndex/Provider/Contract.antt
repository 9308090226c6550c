-- ===== src/PgIndex/Provider/Contract.antt =====
-- `PgIndexProvider` as an `IndexProvider` (crates/freighter-pg-index/src/lib.rs). A request that only
-- reads leaves the tables as they are; that it counts among the requests is not kept.
use freighter.Base.{◌≡◌, ◌⊎◌, inl, inr, List, Bytes, Result, err, Result-cases, arith}
use freighter.Base.Acts.{Act}
use freighter.Types.Error.{AnyError, IndexError}
use freighter.Types.Index.{Semver, Publish}
use freighter.Types.IndexProvider.{IndexProvider, RunsEndStep}
use freighter.PgIndex.Session.{Database, Session}
use freighter.PgIndex.Rows.{Found}
use freighter.PgIndex.Publish
use freighter.PgIndex.Publish.{Codec, insert_release}
use freighter.PgIndex.Publish.Atomic.{publish-Released}
use freighter.PgIndex.Provider.{healthcheck, confirm_existence, yank_crate, unyank_crate}
use freighter.PgIndex.Provider.Entry.{get_sparse_entry}
use freighter.PgIndex.Provider.Listing.{search, list}

module _ {S : Semver} (D : Database) (C : Codec S)
    (ended : List (Result AnyError Found) → List (Result AnyError Found)) where
  abbrev pub pg_index : IndexProvider S
  pg_index = record {
    State = Session;
    healthcheck = healthcheck D;
    get_sparse_entry = λ name s. (get_sparse_entry D C ended name s).0;
    confirm_existence = λ name version s. (confirm_existence D C name version s).0;
    yank_crate = yank_crate D S;
    unyank_crate = unyank_crate D S;
    search = λ query limit s. (search C D query limit s).0;
    list = λ pagination s. (list C D pagination s).0;
    publish = λ W. Publish.publish D C;
  }

  refused :
      {W : Type 0} (p : Publish S) (cksum : Bytes) (end_step : Act W IndexError (Unit {0}))
      (s s' : Session) (w w' : W) (e : IndexError)
      → Publish.publish D C p cksum end_step (s, w) ≡ (err e, (s', w'))
      → (w' ≡ w) ⊎ (w' ≡ (end_step w).1)
  unfolding Publish.publish
  refused p cksum end_step s s' w w' e h = elim (Result-cases (insert_release D C p cksum s).0) [
    | inl (_, inserted) ↦ inr (ground arith)
    | inr (e', failed) ↦ inl (ground arith)
  ]

  -- A publish of the Postgres index that succeeds leaves the world of `end_step` as one successful
  -- run of it does; one that fails leaves that world as it was or as one run of it does.
  pub pg_index-RunsEndStep : RunsEndStep pg_index
  pg_index-RunsEndStep = record {
    accepted =
        λ W p cksum end_step s s' w w' r h. (publish-Released D C p cksum end_step s s' w w' r h).0;
    refused = λ W p cksum end_step s s' w w' e h. refused p cksum end_step s s' w w' e h;
  }
