-- ===== src/PgIndex/Publish.antt =====
-- `publish` of `PgIndexProvider` (crates/freighter-pg-index/src/lib.rs).
pub mod Frame
pub mod Keeping
pub mod Released
pub mod Atomic
pub mod Sound
pub mod Whole
use freighter.Base.{
  Result, ℕ, Bool, true, false, not, ◌||◌, Option, none, some, List, [], Text, text_eq, text_beq,
  codes, Bytes, ok, err, contains, unwrap_or, if◌then◌else◌, map_err,
}
use freighter.Base.Acts.{Act, ◌>>=◌, ◌>>◌, pure}
use freighter.Types.Error.{AnyError, IndexError, conflict, context, any_of_index}
use freighter.Types.Index.{Semver, Publish, PublishDependency, CompletedPublication}
use freighter.PgIndex.Tables.{
  CrateRow, DependencyRow, Statement, get_or_insert_crate, update_crate, insert_version,
  insert_dependency, insert_feature,
}
use freighter.PgIndex.Tables.Names.{
  get_crate_keywords, get_crate_categories, insert_keyword, insert_category, insert_crate_keyword,
  insert_crate_category, remove_crate_keyword, remove_crate_category,
}
use freighter.PgIndex.Session.{Database, Session, ask, query, prepare, commit, for_each}

-- What the index uses of `semver` and `hex` beyond `Semver`.
pub record Codec (S : Semver) : Type 0 where
  pub version_parse : Text → Result AnyError S.Version
  pub req_parse : Text → Result AnyError S.VersionReq
  pub hex_encode : Bytes → Text
  pub hex_decode : Text → Result AnyError Bytes

unfoldable pub option_text_beq : Option Text → Option Text → Bool
option_text_beq none none = true
option_text_beq (some a) (some b) = text_beq a b
option_text_beq _ _ = false

-- The row of a dependency of the version `version_id` on the crate `crate_id`.
unfoldable pub dependency_row : {S : Semver} → ℕ → PublishDependency S → ℕ → DependencyRow
dependency_row {S} version_id d crate_id = record {
  dependent = version_id;
  dependency = crate_id;
  req = S.req_to_string d.version_req;
  features = d.features;
  optional = d.optional;
  default_features = d.default_features;
  target = d.target;
  kind = d.kind;
  «package» = d.explicit_name_in_toml;
}

-- What the request says of the crate differs from its row.
unfoldable pub is_changed : {S : Semver} → Publish S → CrateRow → Bool
is_changed version row =
    not (option_text_beq version.description row.description)
    || (not (option_text_beq version.documentation row.documentation)
        || (not (option_text_beq version.homepage row.homepage)
            || not (option_text_beq version.repository row.repository)))

module _ (D : Database) where
  -- Links a crate to each wanted name that is not among its own.
  unfoldable pub add_names :
      (Text → Statement ℕ)
      → (ℕ → ℕ → Statement (Unit {0}))
      → Text
      → Text
      → ℕ
      → List Text
      → List Text
      → Act Session IndexError (Unit {0})
  add_names insert link inserting linking crate_id own = for_each λ name.
      if contains own name
      then pure tt
      else query D inserting (insert name) >>= λ id. query D linking (link crate_id id)

  -- Takes away the names that are not wanted any more.
  unfoldable pub prune_names :
      (ℕ → Text → Statement (Unit {0}))
      → Text
      → ℕ
      → List Text
      → List Text
      → Act Session IndexError (Unit {0})
  prune_names remove removing crate_id wanted = for_each λ name.
      if not (contains wanted name) then query D removing (remove crate_id name) else pure tt

  unfoldable pub refresh_crate :
      {S : Semver} → Publish S → CrateRow → Act Session IndexError (Unit {0})
  refresh_crate version row =
      if is_changed version row
      then query D (codes "Failed to update crate with new information") (
          update_crate row.id version.description version.documentation version.homepage
            version.repository)
      else pure tt

  unfoldable pub sync_keywords : {S : Semver} → Publish S → ℕ → Act Session IndexError (Unit {0})
  sync_keywords version crate_id = do
    keywords ← query D (codes "Failed to fetch crate keywords") (get_crate_keywords crate_id)
    categories ← query D (codes "Failed to fetch crate categories") (get_crate_categories crate_id)
    add_names insert_keyword insert_crate_keyword (codes "Failed to insert keyword")
        (codes "Failed to insert crate_keyword") crate_id keywords version.keywords
    add_names insert_category insert_crate_category (codes "Failed to insert category")
        (codes "Failed to insert crate_category") crate_id categories version.categories
    prune_names remove_crate_keyword (codes "Failed to remove crate_keyword") crate_id
        version.keywords keywords
    prune_names remove_crate_category (codes "Failed to remove crate_category") crate_id
        version.categories categories

  -- Any failure of this request counts as a conflict.
  unfoldable pub add_version :
      {S : Semver} → Codec S → Publish S → Bytes → ℕ → Act Session IndexError ℕ
  add_version {S} C version cksum crate_id s =
      let (r, s') =
        ask D
          (insert_version crate_id (S.version_to_string version.vers) (C.hex_encode cksum) false
            version.links)
          s in
      (map_err (λ _. conflict (codes "Failed to insert version")) r, s')

  unfoldable pub add_dependencies :
      {S : Semver} → ℕ → List (PublishDependency S) → Act Session IndexError (Unit {0})
  add_dependencies version_id = for_each λ d.
      query D (codes "Failed to insert dependency")
        (insert_dependency d.name (unwrap_or d.registry []) (dependency_row version_id d))

  unfoldable pub add_features : ℕ → List (Text × List Text) → Act Session IndexError (Unit {0})
  add_features version_id =
      for_each λ f. query D (codes "Failed to insert feature") (insert_feature version_id f.0 f.1)

  -- All that the transaction does before `end_step`.
  unfoldable pub insert_release :
      {S : Semver} → Codec S → Publish S → Bytes → Act Session IndexError (Unit {0})
  insert_release C version cksum = do
    prepare D (codes "Failed to get client from pool")
    prepare D (codes "Failed to create publication transaction")
    prepare D (codes "Failed to prepare statements for publish transaction")
    row ← query D (codes "Crate get or insert failed") (get_or_insert_crate version.name)
    refresh_crate version row
    sync_keywords version row.id
    version_id ← add_version C version cksum row.id
    add_dependencies version_id version.deps
    add_features version_id version.features

  -- `publish`: a transaction that is dropped takes its changes back.
  unfoldable pub publish :
      {S : Semver} {W : Type 0}
      → Codec S
      → Publish S
      → Bytes
      → Act W IndexError (Unit {0})
      → Act (Session × W) IndexError CompletedPublication
  publish C version cksum end_step (s, w) =
      let (inserted, s') = insert_release C version cksum s in
      elim inserted [
        | err e ↦ (err e, (record s' { tables = s.tables }, w))
        | ok _ ↦
            let (stepped, w') = end_step w in
            elim stepped [
              | err e ↦ (
                err (
                    IndexError.service_error (
                      context (codes "Failed to execute end step in index upload transaction")
                        (any_of_index e))),
                (record s' { tables = s.tables }, w'),
              )
              | ok _ ↦
                  let (committed, s'') = commit D s s' in
                  elim committed [
                    | err e ↦ (err e, (s'', w'))
                    | ok _ ↦ (ok (record { warnings = none }), (s'', w'))
                  ]
            ]
      ]
