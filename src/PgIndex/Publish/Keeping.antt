-- ===== src/PgIndex/Publish/Keeping.antt =====
-- What the parts of `PgIndexProvider::publish` keep if its statements do
-- (crates/freighter-pg-index/src/lib.rs).
use freighter.Base.{ℕ, List, Text, text_eq, contains, Bool-cases, inl, inr, Option, unwrap_or, []}
use freighter.Base.Acts.{Act, ◌>>=◌, pure}
use freighter.Types.Error.{IndexError}
use freighter.Types.Index.{Semver, Publish}
use freighter.PgIndex.Tables.{Statement, Tables}
use freighter.PgIndex.Tables.{update_crate, insert_dependency, insert_feature}
use freighter.PgIndex.Tables.Names.{
  insert_keyword, insert_category, insert_crate_keyword, insert_crate_category,
  remove_crate_keyword, remove_crate_category, get_crate_keywords, get_crate_categories,
}
use freighter.PgIndex.Session.{Database, Session, query, for_each}
use freighter.PgIndex.Triples.{
  Triple, Gives, triple_bind, triple_query, triple_pure, triple_for_each,
}
use freighter.PgIndex.Publish.{
  is_changed, add_names, refresh_crate, sync_keywords, add_dependencies, prune_names, add_features,
  PublishDependency, CrateRow, dependency_row,
}

-- A property of tables that the statements on crates, keywords and categories keep.
pub record IsSteady (P : Tables → Type 0) : Type 0 where
  pub updated :
      (id : ℕ) (description documentation homepage repository : Option Text) (t : Tables)
      → P t
      → Gives (λ _. P) (update_crate id description documentation homepage repository t)
  pub keyword_inserted : (name : Text) (t : Tables) → P t → Gives (λ _. P) (insert_keyword name t)
  pub category_inserted : (name : Text) (t : Tables) → P t → Gives (λ _. P) (insert_category name t)
  pub keyword_linked : (id n : ℕ) (t : Tables) → P t → Gives (λ _. P) (insert_crate_keyword id n t)
  pub category_linked :
      (id n : ℕ) (t : Tables) → P t → Gives (λ _. P) (insert_crate_category id n t)
  pub keyword_removed :
      (id : ℕ) (name : Text) (t : Tables) → P t → Gives (λ _. P) (remove_crate_keyword id name t)
  pub category_removed :
      (id : ℕ) (name : Text) (t : Tables) → P t → Gives (λ _. P) (remove_crate_category id name t)

module _ (D : Database) (P : Tables → Type 0) where
  abbrev pub Keeping : {A : Type 0} → Act Session IndexError A → Type 0
  Keeping m = Triple P m (λ _. P)

  pub keep_query :
      {A : Type 0} (msg : Text) (st : Statement A)
      → ((t : Tables) → P t → Gives (λ _. P) (st t))
      → Keeping (query D msg st)
  keep_query msg st = triple_query P D (λ _. P) msg st

  pub keep_bind :
      {A B : Type 0} (m : Act Session IndexError A) (f : A → Act Session IndexError B)
      → Keeping m
      → ((a : A) → Keeping (f a))
      → Keeping (m >>= f)
  keep_bind m f = triple_bind (λ _. P) (λ _. P) P m f

  pub keep_pure : Keeping (pure tt)
  keep_pure = triple_pure P IndexError

  pub keep_for_each :
      {A : Type 0} (f : A → Act Session IndexError (Unit {0})) (l : List A)
      → ((a : A) → Keeping (f a))
      → Keeping (for_each f l)
  keep_for_each f l = triple_for_each P f l

  pub keep_add_names :
      (insert : Text → Statement ℕ) (link : ℕ → ℕ → Statement (Unit {0})) (inserting linking : Text)
      (crate_id : ℕ) (own wanted : List Text)
      → ((a : Text) (t : Tables) → P t → Gives (λ _. P) (insert a t))
      → ((a b : ℕ) (t : Tables) → P t → Gives (λ _. P) (link a b t))
      → Keeping (add_names D insert link inserting linking crate_id own wanted)
  unfolding add_names
  keep_add_names insert link inserting linking crate_id own wanted inserted linked =
      keep_for_each _ wanted λ a. elim (Bool-cases (contains own a)) [
        | inl there ↦ rw there keep_pure
        | inr missing ↦ rw missing (
            keep_bind (query D inserting (insert a)) _
              (keep_query inserting (insert a) (inserted a))
              (λ n. keep_query linking (link crate_id n) (linked crate_id n)))
      ]

  pub keep_prune_names :
      (remove : ℕ → Text → Statement (Unit {0})) (removing : Text) (crate_id : ℕ)
      (wanted own : List Text)
      → ((a : Text) (t : Tables) → P t → Gives (λ _. P) (remove crate_id a t))
      → Keeping (prune_names D remove removing crate_id wanted own)
  unfolding prune_names
  keep_prune_names remove removing crate_id wanted own removed = keep_for_each _ own λ a.
      elim (Bool-cases (contains wanted a)) [
        | inl there ↦ rw there keep_pure
        | inr gone ↦ rw gone (keep_query removing (remove crate_id a) (removed a))
      ]

  module _ (steady : IsSteady P) where
    pub keep_refresh_crate :
        {S : Semver} (p : Publish S) (row : CrateRow) → Keeping (refresh_crate D p row)
    unfolding refresh_crate
    keep_refresh_crate p row = elim (Bool-cases (is_changed p row)) [
      | inl changed ↦ rw changed (
          keep_query _ _
            (steady.updated row.id p.description p.documentation p.homepage p.repository))
      | inr same ↦ rw same keep_pure
    ]

    pub keep_sync_keywords :
        {S : Semver} (p : Publish S) (crate_id : ℕ) → Keeping (sync_keywords D p crate_id)
    unfolding sync_keywords get_crate_keywords get_crate_categories
    keep_sync_keywords p crate_id = keep_bind _ _ (keep_query _ _ (λ t h. h)) λ keywords.
        keep_bind _ _ (keep_query _ _ (λ t h. h)) λ categories.
          keep_bind _ _
            (keep_add_names _ _ _ _ crate_id keywords p.keywords steady.keyword_inserted
              steady.keyword_linked)
            λ _.
              keep_bind _ _
                (keep_add_names _ _ _ _ crate_id categories p.categories steady.category_inserted
                  steady.category_linked)
                λ _.
                  keep_bind _ _
                    (keep_prune_names _ _ crate_id p.keywords keywords
                      (steady.keyword_removed crate_id))
                    λ _.
                      keep_prune_names _ _ crate_id p.categories categories
                        (steady.category_removed crate_id)

  pub keep_add_dependencies :
      {S : Semver} (version_id : ℕ) (deps : List (PublishDependency S))
      → ((d : PublishDependency S) (t : Tables)
          → P t
          → Gives
              (λ _. P)
              (insert_dependency d.name (unwrap_or d.registry []) (dependency_row version_id d) t))
      → Keeping (add_dependencies D version_id deps)
  unfolding add_dependencies
  keep_add_dependencies version_id deps inserted =
      keep_for_each _ deps λ d. keep_query _ _ (inserted d)

  pub keep_add_features :
      (version_id : ℕ) (features : List (Text × List Text))
      → ((name : Text) (values : List Text) (t : Tables)
          → P t
          → Gives (λ _. P) (insert_feature version_id name values t))
      → Keeping (add_features D version_id features)
  unfolding add_features
  keep_add_features version_id features inserted =
      keep_for_each _ features λ f. keep_query _ _ (inserted f.0 f.1)
