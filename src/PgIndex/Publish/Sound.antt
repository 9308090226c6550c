-- ===== src/PgIndex/Publish/Sound.antt =====
-- The transaction of `PgIndexProvider::publish` keeps the integrity of the tables
-- (crates/freighter-pg-index/src/lib.rs).
use freighter.Base.{
  ap, ◌∙◌, ℕ, suc, ◌≡◌, refl, Bool, true, ◌&&◌, Option, List, [], ◌∷◌, ◌++◌, Text, text_eq,
  text_beq, eqb, any, All-append, Bool-cases, Option-cases, inl, inr, arith, some, none,
}
use freighter.PgIndex.Tables.{
  CrateRow, VersionRow, DependencyRow, Tables, find_crate, update_row, new_crate,
  get_or_insert_crate, update_crate, insert_version, insert_dependency, insert_feature,
}
use freighter.PgIndex.Tables.Names.{
  find_name, insert_keyword, insert_category, insert_crate_keyword, insert_crate_category,
  remove_crate_keyword, remove_crate_category,
}
use freighter.PgIndex.Tables.Integrity.{
  IsSound, has_crate, has_version_id, same_version, All-weaken, any_more, any_last, Unique-append,
  update_row-has_crate, update_row-ids, found-has_crate, named-IsSound, crates-IsSound,
}
use freighter.PgIndex.Triples.{Gives}
use freighter.PgIndex.Publish.Keeping.{IsSteady}

-- Sound tables in which a crate or a version is there.
abbrev pub WithCrate : ℕ → Tables → Type 0
WithCrate id t = IsSound t × (has_crate t.crates id ≡ true)

abbrev pub WithVersion : ℕ → Tables → Type 0
WithVersion n t = IsSound t × (has_version_id t.versions n ≡ true)

new_crate-IsSound :
    (name registry : Text) (updated_at : Option ℕ) (t : Tables)
    → IsSound t
    → IsSound (record t {
      crates = t.crates ++ new_crate name registry updated_at t ∷ [];
      next_id = suc t.next_id;
    })
unfolding new_crate
new_crate-IsSound name registry updated_at t v =
    crates-IsSound t (t.crates ++ new_crate name registry updated_at t ∷ []) (suc t.next_id)
      (omega arith)
      (All-append _ t.crates _ (All-weaken _ _ t.crates (λ c h. omega arith) v.crate_ids)
        (omega arith, tt))
      (λ id h. any_more (λ c. eqb c.id id) t.crates _ h) v

pub get_or_insert-WithCrate :
    (name : Text) (t : Tables)
    → IsSound t
    → Gives (λ row. WithCrate row.id) (get_or_insert_crate name t)
unfolding get_or_insert_crate new_crate
get_or_insert-WithCrate name t v = elim (Option-cases (find_crate name [] t.crates)) [
  | inl missing ↦
      rw (missing, get_or_insert_crate)
        (
          new_crate-IsSound name [] (some t.clock) t v,
          any_last (λ c. eqb c.id t.next_id) t.crates (new_crate name [] (some t.clock) t)
              (ground arith),
        )
  | inr (c, found) ↦
      let f : CrateRow → CrateRow = λ r. record r { updated_at = some t.clock } in
      let kept = λ (id : ℕ). update_row-has_crate c.id f t.crates id (λ r. refl) in
      rw (found, get_or_insert_crate)
        (
          crates-IsSound t (update_row c.id f t.crates) t.next_id (omega arith)
              (update_row-ids c.id t.next_id f t.crates (λ r. refl) v.crate_ids)
              (λ id h. ground (arith, kept id)) v,
          ground (arith, kept c.id, found-has_crate name [] t.crates c),
        )
]

pub WithCrate-IsSteady : (id : ℕ) → IsSteady (WithCrate id)
unfolding update_crate insert_keyword insert_category insert_crate_keyword insert_crate_category
    remove_crate_keyword remove_crate_category
WithCrate-IsSteady id = record {
  updated = λ other d1 d2 d3 d4 t (v, there).
      let f : CrateRow → CrateRow =
        λ r. record r { description = d1; documentation = d2; homepage = d3; repository = d4 } in
      let kept = λ (k : ℕ). update_row-has_crate other f t.crates k (λ r. refl) in
      (
        crates-IsSound t (update_row other f t.crates) t.next_id (omega arith)
            (update_row-ids other t.next_id f t.crates (λ r. refl) v.crate_ids)
            (λ k h. ground (arith, kept k)) v,
        ground (arith, kept id),
      );
  keyword_inserted = λ name t (v, there). elim (Option-cases (find_name name t.keywords)) [
    | inl missing ↦
        rw (missing, insert_keyword)
          (
            named-IsSound t (t.keywords ++ record { id = t.next_id; name = name } ∷ []) t.categories
                t.crate_keywords t.crate_categories (suc t.next_id) (omega arith) v,
            there,
          )
    | inr (k, found) ↦ rw (found, insert_keyword) (v, there)
  ];
  category_inserted = λ name t (v, there). elim (Option-cases (find_name name t.categories)) [
    | inl missing ↦
        rw (missing, insert_category)
          (
            named-IsSound t t.keywords (t.categories ++ record { id = t.next_id; name = name } ∷ [])
                t.crate_keywords t.crate_categories (suc t.next_id) (omega arith) v,
            there,
          )
    | inr (k, found) ↦ rw (found, insert_category) (v, there)
  ];
  keyword_linked = λ k n t (v, there). (
    named-IsSound t t.keywords t.categories _ t.crate_categories t.next_id (omega arith) v,
    there,
  );
  category_linked = λ k n t (v, there).
      (named-IsSound t t.keywords t.categories t.crate_keywords _ t.next_id (omega arith) v, there);
  keyword_removed = λ k n t (v, there). (
    named-IsSound t t.keywords t.categories _ t.crate_categories t.next_id (omega arith) v,
    there,
  );
  category_removed = λ k n t (v, there).
      (named-IsSound t t.keywords t.categories t.crate_keywords _ t.next_id (omega arith) v, there);
}

pub insert_version-WithVersion :
    (id : ℕ) (version cksum : Text) (yanked : Bool) (links : Option Text) (t : Tables)
    → WithCrate id t
    → Gives WithVersion (insert_version id version cksum yanked links t)
unfolding insert_version
insert_version-WithVersion id version cksum yanked links t (v, there) =
    elim (Bool-cases (any (same_version id version) t.versions)) [
      | inl twice ↦ rw (twice, insert_version) tt
      | inr fresh ↦
          let row : VersionRow = record {
            id = t.next_id;
            «crate» = id;
            version = version;
            cksum = cksum;
            yanked = yanked;
            links = links;
          } in
          rw (fresh, insert_version)
            (
              record {
                crate_ids = All-weaken _ _ t.crates (λ c h. omega arith) v.crate_ids;
                version_ids =
                    All-append _ t.versions _
                      (All-weaken _ _ t.versions (λ w h. omega arith) v.version_ids)
                      (omega arith, tt);
                versions_of_crates =
                    All-append _ t.versions (row ∷ []) v.versions_of_crates (there, tt);
                versions_once = Unique-append t.versions row v.versions_once fresh;
                features_of_versions =
                    All-weaken _ _ t.features
                      (λ f h. any_more (λ w. eqb w.id f.crate_version) t.versions (row ∷ []) h)
                      v.features_of_versions;
                dependencies_of_versions =
                    All-weaken _ _ t.dependencies
                      (λ d h. any_more (λ w. eqb w.id d.dependent) t.versions (row ∷ []) h)
                      v.dependencies_of_versions;
                dependencies_on_crates = v.dependencies_on_crates;
              },
              any_last (λ w. eqb w.id t.next_id) t.versions row (ground arith),
            )
    ]

-- A row of a dependency of the version `n`, for each crate that it may be on.
with_dependency-IsSound :
    (n crate_id : ℕ) (row : ℕ → DependencyRow) (t : Tables)
    → ((k : ℕ) → ((row k).dependent ≡ n) × ((row k).dependency ≡ k))
    → WithVersion n t
    → has_crate t.crates crate_id ≡ true
    → IsSound (record t { dependencies = t.dependencies ++ row crate_id ∷ [] })
with_dependency-IsSound n crate_id row t keys (v, there) known = record {
  crate_ids = v.crate_ids;
  version_ids = v.version_ids;
  versions_of_crates = v.versions_of_crates;
  versions_once = v.versions_once;
  features_of_versions = v.features_of_versions;
  dependencies_of_versions =
      All-append _ t.dependencies _ v.dependencies_of_versions
        (ap (has_version_id t.versions) (keys crate_id).0 ∙ there, tt);
  dependencies_on_crates =
      All-append _ t.dependencies _ v.dependencies_on_crates
        (ap (has_crate t.crates) (keys crate_id).1 ∙ known, tt);
}

pub insert_dependency-WithVersion :
    (n : ℕ) (name registry : Text) (row : ℕ → DependencyRow) (t : Tables)
    → ((k : ℕ) → ((row k).dependent ≡ n) × ((row k).dependency ≡ k))
    → WithVersion n t
    → Gives (λ _. WithVersion n) (insert_dependency name registry row t)
unfolding insert_dependency new_crate
insert_dependency-WithVersion n name registry row t keys (v, there) =
    elim (Option-cases (find_crate name registry t.crates)) [
      | inr (c, found) ↦
          rw (found, insert_dependency)
            (
              with_dependency-IsSound n c.id row t keys (v, there)
                  (found-has_crate name registry t.crates c found),
              there,
            )
      | inl missing ↦
          let t' : Tables = record t {
            crates = t.crates ++ new_crate name registry none t ∷ [];
            next_id = suc t.next_id;
          } in
          rw (missing, insert_dependency)
            (
              with_dependency-IsSound n t.next_id row t' keys
                  (new_crate-IsSound name registry none t v, there)
                  (any_last (λ c. eqb c.id t.next_id) t.crates (new_crate name registry none t)
                    (ground arith)),
              there,
            )
    ]

pub insert_feature-WithVersion :
    (n : ℕ) (name : Text) (values : List Text) (t : Tables)
    → WithVersion n t
    → Gives (λ _. WithVersion n) (insert_feature n name values t)
unfolding insert_feature
insert_feature-WithVersion n name values t (v, there) =
    elim (Bool-cases (any (λ f. eqb f.crate_version n && text_beq f.name name) t.features)) [
      | inl twice ↦ rw (twice, insert_feature) tt
      | inr fresh ↦
          rw (fresh, insert_feature)
            (
              record {
                crate_ids = v.crate_ids;
                version_ids = v.version_ids;
                versions_of_crates = v.versions_of_crates;
                versions_once = v.versions_once;
                features_of_versions = All-append _ t.features _ v.features_of_versions (there, tt);
                dependencies_of_versions = v.dependencies_of_versions;
                dependencies_on_crates = v.dependencies_on_crates;
              },
              there,
            )
    ]
