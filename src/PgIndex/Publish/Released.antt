-- ===== src/PgIndex/Publish/Released.antt =====
-- What the transaction of `PgIndexProvider::publish` has written when it commits
-- (crates/freighter-pg-index/src/lib.rs).
use freighter.Base.{
  ap, ◌≡◌, ℕ, Bool, false, ◌&&◌, List, [], ◌∷◌, ◌++◌, Text, text_eq, text_beq, Bytes, eqb, any,
  Bool-cases, inl, inr,
}
use freighter.Base.Acts.{◌>>=◌}
use freighter.Types.Index.{Semver, Publish}
use freighter.PgIndex.Tables.{insert_version, VersionRow, Tables}
use freighter.PgIndex.Session.{Database}
use freighter.PgIndex.Triples.{
  Holds-weaken, Holds-map_err, triple_ask, Triple, Gives, triple_bind, triple_query, triple_prepare,
}
use freighter.PgIndex.Publish.{
  Codec, refresh_crate, sync_keywords, add_dependencies, add_features, insert_release, add_version,
  CrateRow, ask, insert_version,
}
use freighter.PgIndex.Publish.Frame.{
  insert_crate_keyword-Frame, insert_crate_category-Frame, remove_crate_keyword-Frame,
  remove_crate_category-Frame, insert_feature-Frame, insert_dependency-Frame, update_crate-Frame,
  insert_keyword-Frame, insert_category-Frame, HasId, Frame, get_or_insert_crate-Frame,
}
use freighter.PgIndex.Publish.Keeping.{
  IsSteady, keep_refresh_crate, keep_sync_keywords, keep_add_dependencies, keep_add_features,
}

-- The row of a version.
abbrev pub is_version : ℕ → Text → VersionRow → Bool
is_version crate_id version v = eqb v.«crate» crate_id && text_beq v.version version

module _ {S : Semver} (C : Codec S) (p : Publish S) (cksum : Bytes) where
  abbrev pub released_row : ℕ → ℕ → VersionRow
  released_row n id = record {
    id = n;
    «crate» = id;
    version = S.version_to_string p.vers;
    cksum = C.hex_encode cksum;
    yanked = false;
    links = p.links;
  }

  -- The crate is there, the version was not, and its row stands behind the others.
  abbrev pub Released : List VersionRow → Tables → Type 0
  Released old t =
      (id : ℕ) × HasId p.name id t.crates
      × (any (is_version id (S.version_to_string p.vers)) old ≡ false)
      × ((n : ℕ) × (t.versions ≡ old ++ released_row n id ∷ []))

Frame-IsSteady :
    (name : Text) (id : ℕ) (versions : List VersionRow) → IsSteady (Frame name id versions)
Frame-IsSteady name id versions = record {
  updated = update_crate-Frame name id versions;
  keyword_inserted = insert_keyword-Frame name id versions;
  category_inserted = insert_category-Frame name id versions;
  keyword_linked = insert_crate_keyword-Frame name id versions;
  category_linked = insert_crate_category-Frame name id versions;
  keyword_removed = remove_crate_keyword-Frame name id versions;
  category_removed = remove_crate_category-Frame name id versions;
}

module _ {S : Semver} (D : Database) (C : Codec S) (p : Publish S) (cksum : Bytes) where
  -- The version was not there, and its row is added.
  abbrev Added : ℕ → List VersionRow → ℕ → Tables → Type 0
  Added id old n t =
      (any (is_version id (S.version_to_string p.vers)) old ≡ false)
      × Frame p.name id (old ++ released_row C p cksum n id ∷ []) t

  insert_version-Added :
      (id : ℕ) (old : List VersionRow) (t : Tables)
      → Frame p.name id old t
      → Gives
          (Added id old)
          (insert_version id (S.version_to_string p.vers) (C.hex_encode cksum) false p.links t)
  unfolding insert_version
  insert_version-Added id old t (h, kept) =
      elim (Bool-cases (any (is_version id (S.version_to_string p.vers)) t.versions)) [
        | inl twice ↦ rw (twice, insert_version) tt
        | inr fresh ↦
            rw (fresh, insert_version)
              (
                rw kept at fresh,
                (h, ap (λ vs. vs ++ released_row C p cksum t.next_id id ∷ []) kept),
              )
      ]

  -- The request that adds the version.
  triple_add_version :
      (id : ℕ) (old : List VersionRow)
      → Triple (Frame p.name id old) (add_version D C p cksum id) (Added id old)
  unfolding add_version
  triple_add_version id old s h =
      Holds-map_err (Added id old) _ (ask D _ s)
        (triple_ask (Frame p.name id old) D (Added id old) _ (insert_version-Added id old) s h)

  abbrev Start : List VersionRow → Tables → Type 0
  Start old t = t.versions ≡ old

  abbrev Finish : List VersionRow → Unit {0} → Tables → Type 0
  Finish old _ = Released C p cksum old

  from_version :
      (id : ℕ) (old : List VersionRow) (n : ℕ)
      → Triple
          (Added id old n)
          (add_dependencies D n p.deps >>= λ _. add_features D n p.features)
          (Finish old)
  from_version id old n s (fresh, h) =
      let versions = old ++ released_row C p cksum n id ∷ [] in
      triple_bind (λ _. Frame p.name id versions) (Finish old) (Frame p.name id versions)
        (add_dependencies D n p.deps) (λ _. add_features D n p.features)
        (keep_add_dependencies D (Frame p.name id versions) n p.deps
          (λ d. insert_dependency-Frame p.name id versions _ _ _))
        (λ _ s' h'.
          Holds-weaken (λ _. Frame p.name id versions) (Finish old) _
            (λ _ t kept. (id, kept.0, fresh, (n, kept.1)))
            (keep_add_features D (Frame p.name id versions) n p.features
              (insert_feature-Frame p.name id versions n) s' h'))
        s h

  from_row :
      (old : List VersionRow) (row : CrateRow)
      → Triple
          (Frame p.name row.id old)
          (refresh_crate D p row >>= λ _. sync_keywords D p row.id >>= λ _.
            add_version D C p cksum row.id >>= λ n.
            add_dependencies D n p.deps >>= λ _. add_features D n p.features)
          (Finish old)
  from_row old row =
      let kept = Frame p.name row.id old in
      triple_bind (λ _. kept) (Finish old) kept _ _
        (keep_refresh_crate D kept (Frame-IsSteady p.name row.id old) p row)
        λ _.
          triple_bind (λ _. kept) (Finish old) kept _ _
            (keep_sync_keywords D kept (Frame-IsSteady p.name row.id old) p row.id)
            λ _.
              triple_bind (Added row.id old) (Finish old) kept _ _ (triple_add_version row.id old)
                (from_version row.id old)

  -- A transaction that comes to its end step has added the version that was not there, and no other.
  pub insert_release-Released :
      (old : List VersionRow) → Triple (Start old) (insert_release D C p cksum) (Finish old)
  unfolding insert_release
  insert_release-Released old =
      triple_bind (λ _. Start old) (Finish old) (Start old) _ _ (triple_prepare (Start old) D _)
        λ _.
          triple_bind (λ _. Start old) (Finish old) (Start old) _ _ (triple_prepare (Start old) D _)
            λ _.
              triple_bind (λ _. Start old) (Finish old) (Start old) _ _
                (triple_prepare (Start old) D _)
                λ _.
                  triple_bind (λ row. Frame p.name row.id old) (Finish old) (Start old) _ _
                    (triple_query (Start old) D (λ row. Frame p.name row.id old) _ _
                      (get_or_insert_crate-Frame p.name old))
                    (from_row old)
