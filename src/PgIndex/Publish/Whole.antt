-- ===== src/PgIndex/Publish/Whole.antt =====
-- A publish to the Postgres index keeps the integrity of the tables, whatever fails
-- (crates/freighter-pg-index/src/lib.rs).
use mathlib.Core.Path.{subst}
use freighter.Base.{
  sym, ℕ, ◌≡◌, ◌⊎◌, refl, false, text_eq, Bool-cases, Option-cases, Result-cases, inl, inr, arith,
  Bytes, ok,
}
use freighter.Base.Acts.{Act, ◌>>=◌}
use freighter.Types.Error.{IndexError}
use freighter.Types.Index.{Semver, Publish}
use freighter.PgIndex.Tables.{CrateRow, Tables}
use freighter.PgIndex.Tables.Integrity.{IsSound}
use freighter.PgIndex.Triples.{
  Triple, triple_bind, triple_query, triple_prepare, triple_ask, Holds-map_err, Holds-ok,
  Holds-weaken,
}
use freighter.PgIndex.Session.{Database, Session, ask, commit}
use freighter.PgIndex.Publish
use freighter.PgIndex.Publish.{
  Codec, insert_release, refresh_crate, sync_keywords, add_version, add_dependencies, add_features,
  dependency_row,
}
use freighter.PgIndex.Publish.Keeping.{
  keep_refresh_crate, keep_sync_keywords, keep_add_dependencies, keep_add_features,
}
use freighter.PgIndex.Publish.Sound.{
  WithCrate, WithVersion, WithCrate-IsSteady, get_or_insert-WithCrate, insert_version-WithVersion,
  insert_dependency-WithVersion, insert_feature-WithVersion,
}

abbrev Sound : Unit {0} → Tables → Type 0
Sound _ = IsSound

module _ {S : Semver} (D : Database) (C : Codec S) (p : Publish S) (cksum : Bytes) where
  triple_add_version : (id : ℕ) → Triple (WithCrate id) (add_version D C p cksum id) WithVersion
  unfolding add_version
  triple_add_version id s h = Holds-map_err WithVersion _ (ask D _ s) (
      triple_ask (WithCrate id) D WithVersion _
        (insert_version-WithVersion id (S.version_to_string p.vers) (C.hex_encode cksum) false
          p.links)
        s h)

  from_version :
      (n : ℕ)
      → Triple
          (WithVersion n)
          (add_dependencies D n p.deps >>= λ _. add_features D n p.features)
          Sound
  unfolding dependency_row
  from_version n =
      triple_bind (λ _. WithVersion n) Sound (WithVersion n) (add_dependencies D n p.deps)
        (λ _. add_features D n p.features)
        (keep_add_dependencies D (WithVersion n) n p.deps
          (λ d t. insert_dependency-WithVersion n _ _ (dependency_row n d) t (λ k. (refl, refl))))
        (λ _ s h.
          Holds-weaken (λ _. WithVersion n) Sound (add_features D n p.features s)
            (λ _ t kept. kept.0)
            (keep_add_features D (WithVersion n) n p.features (insert_feature-WithVersion n) s h))

  from_row :
      (row : CrateRow)
      → Triple
          (WithCrate row.id)
          (refresh_crate D p row >>= λ _. sync_keywords D p row.id >>= λ _.
            add_version D C p cksum row.id >>= λ n.
            add_dependencies D n p.deps >>= λ _. add_features D n p.features)
          Sound
  from_row row =
      let kept = WithCrate row.id in
      let steady = WithCrate-IsSteady row.id in
      triple_bind (λ _. kept) Sound kept _ _ (keep_refresh_crate D kept steady p row)
        λ _.
          triple_bind (λ _. kept) Sound kept _ _ (keep_sync_keywords D kept steady p row.id)
            λ _. triple_bind WithVersion Sound kept _ _ (triple_add_version row.id) from_version

  insert_release-IsSound : Triple IsSound (insert_release D C p cksum) Sound
  unfolding insert_release
  insert_release-IsSound = triple_bind Sound Sound IsSound _ _ (triple_prepare IsSound D _) λ _.
      triple_bind Sound Sound IsSound _ _ (triple_prepare IsSound D _) λ _.
        triple_bind Sound Sound IsSound _ _ (triple_prepare IsSound D _) λ _.
          triple_bind (λ row. WithCrate row.id) Sound IsSound _ _
            (triple_query IsSound D (λ row. WithCrate row.id) _ _ (get_or_insert-WithCrate p.name))
            from_row

  -- The tables after a publish are those before it or those of the finished transaction.
  publish_tables :
      {W : Type 0} (end_step : Act W IndexError (Unit {0})) (s : Session) (w : W)
      → ((Publish.publish D C p cksum end_step (s, w)).1.0.tables ≡ s.tables)
        ⊎ (((insert_release D C p cksum s).0 ≡ ok tt)
            × ((Publish.publish D C p cksum end_step (s, w)).1.0.tables
                ≡ (insert_release D C p cksum s).1.tables))
  unfolding Publish.publish commit
  publish_tables end_step s w = elim (Result-cases (insert_release D C p cksum s).0) [
    | inr (e, failed) ↦ inl (ground arith)
    | inl (_, inserted) ↦ elim (Result-cases (end_step w).0) [
      | inr (e, failed) ↦ inl (ground arith)
      | inl (_, stepped) ↦
          let there = (insert_release D C p cksum s).1 in
          elim (Option-cases (D.fault there.asked)) [
            | inl fine ↦ inr (inserted, ground arith)
            | inr (e, failed) ↦ elim (Bool-cases (D.took_effect there.asked)) [
              | inr dropped ↦ inl (ground arith)
              | inl lasting ↦ inr (inserted, ground arith)
            ]
          ]
    ]
  ]

  pub publish-IsSound :
      {W : Type 0} (end_step : Act W IndexError (Unit {0})) (s : Session) (w : W)
      → IsSound s.tables
      → IsSound (Publish.publish D C p cksum end_step (s, w)).1.0.tables
  publish-IsSound end_step s w v = elim (publish_tables end_step s w) [
    | inl same ↦ subst IsSound (sym same) v
    | inr (inserted, same) ↦
        subst IsSound (sym same)
          (Holds-ok Sound (insert_release D C p cksum s) tt inserted (insert_release-IsSound s v))
  ]
