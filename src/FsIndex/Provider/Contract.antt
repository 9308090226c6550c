-- ===== src/FsIndex/Provider/Contract.antt =====
-- `FsIndexProvider` as an `IndexProvider` (crates/freighter-fs-index/src/lib.rs), and what the server
-- relies on of it. `now` is what the clock says, and `ended` the order in which tasks end.
use freighter.Base.{ℕ, ◌≡◌, inl, inr, List, Bytes, ok, err, Result-cases, arith, ◌⊎◌}
use freighter.Base.Acts.{Act}
use freighter.Types.Error.{IndexError}
use freighter.Types.Index.{Semver, Publish, CompletedPublication}
use freighter.Types.IndexProvider.{IndexProvider, RunsEndStep}
use freighter.Storage.Metadata.{MetadataStorage}
use freighter.FsIndex.Meta.{Json}
use freighter.FsIndex.Provider.Listing.{list}
use freighter.FsIndex.Provider.Search.{Fetched, search}
use freighter.FsIndex.Provider
use freighter.FsIndex.Provider.{
  get_sparse_entry, confirm_existence, yank_crate, unyank_crate, published_file, put_index_file,
}

module _ {S : Semver} (J : Json S) (F : MetadataStorage) (now : F.State → ℕ)
    (ended : List (Fetched S) → List (Fetched S)) where
  abbrev pub fs_index : IndexProvider S
  fs_index = record {
    State = F.State;
    healthcheck = F.healthcheck;
    get_sparse_entry = get_sparse_entry J F;
    confirm_existence = confirm_existence J F;
    yank_crate = yank_crate J F;
    unyank_crate = unyank_crate J F;
    search = search J F ended;
    list = list J F now ended;
    publish = λ W. Provider.publish J F;
  }

  accepted :
      {W : Type 0} (p : Publish S) (cksum : Bytes) (end_step : Act W IndexError (Unit {0}))
      (s s' : F.State) (w w' : W) (r : CompletedPublication)
      → Provider.publish J F p cksum end_step (s, w) ≡ (ok r, (s', w'))
      → end_step w ≡ (ok tt, w')
  unfolding Provider.publish
  accepted p cksum end_step s s' w w' r h = elim (Result-cases (published_file J F p cksum s)) [
    | inl (file, read) ↦ ground arith
    | inr (e, failed) ↦ absurd (ground arith)
  ]

  refused :
      {W : Type 0} (p : Publish S) (cksum : Bytes) (end_step : Act W IndexError (Unit {0}))
      (s s' : F.State) (w w' : W) (e : IndexError)
      → Provider.publish J F p cksum end_step (s, w) ≡ (err e, (s', w'))
      → (w' ≡ w) ⊎ (w' ≡ (end_step w).1)
  unfolding Provider.publish
  refused p cksum end_step s s' w w' e h = elim (Result-cases (published_file J F p cksum s)) [
    | inl (file, read) ↦ inr (ground arith)
    | inr (e', failed) ↦ inl (ground arith)
  ]

  -- A publish of the file index that succeeds leaves the world of `end_step` as one successful run
  -- of it does; one that fails leaves that world as it was or as one run of it does.
  pub fs_index-RunsEndStep : RunsEndStep fs_index
  fs_index-RunsEndStep = record {
    accepted = λ W p cksum end_step s s' w w' r h. accepted p cksum end_step s s' w w' r h;
    refused = λ W p cksum end_step s s' w w' e h. refused p cksum end_step s s' w w' e h;
  }
