-- ===== src/PgIndex/Publish/Atomic.antt =====
-- `publish` of `PgIndexProvider` (crates/freighter-pg-index/src/lib.rs): what a call that succeeds and
-- one that fails leave of the tables.
use freighter.Base.{
  ◌≡◌, refl, true, ◌⊎◌, ℕ, Bytes, ok, err, Result-cases, Bool-cases, inl, inr, arith,
}
use freighter.Base.Acts.{Act}
use freighter.Types.Error.{IndexError}
use freighter.Types.Index.{Semver, Publish, CompletedPublication}
use freighter.PgIndex.Triples.{Holds-ok}
use freighter.PgIndex.Session.{Database, Session, commit}
use freighter.PgIndex.Publish
use freighter.PgIndex.Publish.{Codec, insert_release, publish}
use freighter.PgIndex.Publish.Released.{Released, insert_release-Released}

module _ {S : Semver} (D : Database) (C : Codec S) {W : Type 0} (p : Publish S) (cksum : Bytes)
    (end_step : Act W IndexError (Unit {0})) where
  inserted-Released :
      (s : Session)
      → (insert_release D C p cksum s).0 ≡ ok tt
      → Released C p cksum s.tables.versions (insert_release D C p cksum s).1.tables
  inserted-Released s inserted =
      Holds-ok (λ _. Released C p cksum s.tables.versions) (insert_release D C p cksum s) tt
        inserted (insert_release-Released D C p cksum s.tables.versions s refl)

  -- A publish of the Postgres index that fails, at whichever request, leaves the tables as they
  -- were, unless a commit that was reported as failed has taken effect; then the end step has
  -- succeeded, the version was not there, and its row is all that was added to the versions.
  pub publish_atomic :
      (s s' : Session) (w w' : W) (e : IndexError)
      → Publish.publish D C p cksum end_step (s, w) ≡ (err e, (s', w'))
      → (s'.tables ≡ s.tables)
        ⊎ ((n : ℕ) × (D.took_effect n ≡ true)
            × (end_step w ≡ (ok tt, w'))
            × Released C p cksum s.tables.versions s'.tables)
  unfolding Publish.publish commit
  publish_atomic s s' w w' e h = elim (Result-cases (insert_release D C p cksum s).0) [
    | inr (e', failed) ↦ inl (ground arith)
    | inl (_, inserted) ↦ elim (Result-cases (end_step w).0) [
      | inr (e', failed) ↦ inl (ground arith)
      | inl (_, stepped) ↦
          let there = (insert_release D C p cksum s).1 in
          elim (Bool-cases (D.took_effect there.asked)) [
            | inr dropped ↦ inl (ground arith)
            | inl lasting ↦
                let kept : s'.tables ≡ there.tables = ground arith in
                inr
                  (there.asked, lasting, ground arith, rw kept (inserted-Released s (ground arith)))
          ]
    ]
  ]

  -- A publish that succeeds has run the end step with success; the version was not there, and its
  -- row is all that was added to the versions.
  pub publish-Released :
      (s s' : Session) (w w' : W) (r : CompletedPublication)
      → Publish.publish D C p cksum end_step (s, w) ≡ (ok r, (s', w'))
      → (end_step w ≡ (ok tt, w')) × Released C p cksum s.tables.versions s'.tables
  unfolding Publish.publish commit
  publish-Released s s' w w' r h = elim (Result-cases (insert_release D C p cksum s).0) [
    | inr (e, failed) ↦ absurd (ground arith)
    | inl (_, inserted) ↦
        let kept : s'.tables ≡ (insert_release D C p cksum s).1.tables = ground arith in
        (ground arith, rw kept (inserted-Released s (ground arith)))
  ]
