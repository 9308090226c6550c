-- ===== src/Tests/Pg.antt =====
-- Examples of the Postgres index: a first publish, a failed one, a yank, and a renamed dependency.
use freighter.Types.Index.{PublishDependency, DependencyKind, Publish}
use freighter.Types.IndexProvider.{RunsEndStep}
use freighter.PgIndex.Publish.Released.{Released, released_row}
use freighter.PgIndex.Publish.Atomic.{publish_atomic}
use freighter.PgIndex.Rows.Released.{
  feature_rows, dependency_rows, pg_dependency, version_of_row-released_row,
}
use freighter.PgIndex.Rows.{version_of_row}
use freighter.Types.Normalize.Idempotent.{DistinctKeys}
use freighter.Types.Convert.{release_of_publish}
use freighter.Base.Dict
use freighter.Base.{
  unwrap_or, length, map, arith, text_eq, text_beq, ℕ, suc, ◌≡◌, ◌⊎◌, refl, false, none, some, [],
  ◌∷◌, Text, codes, Bytes, Result, ok, err, true, List,
}
use freighter.PgIndex.Tables.{CrateRow, find_crate, new_crate, get_or_insert_crate, insert_version}
use freighter.PgIndex.Tables.Names.{get_crate_keywords, get_crate_categories, linked_names}
use freighter.PgIndex.Tables.Reading.{set_yank, yank_rows}
use freighter.PgIndex.Provider.Yanking.{mark, rows_of, yank_marks}
use freighter.PgIndex.Provider.Contract.{pg_index, pg_index-RunsEndStep}
use freighter.PgIndex.Provider.Ranking.{first_pages, pages_together}
use freighter.Base.Acts.{◌>>=◌, lift, pure, raise, gets, modify}
use freighter.Types.Error.{context, any_of_index, IndexError}
use freighter.PgIndex.Session.{Database, Session, ask, query, prepare, commit, for_each}
use freighter.PgIndex.Publish
use freighter.PgIndex.Publish.{
  Codec, add_names, prune_names, is_changed, option_text_beq, refresh_crate, sync_keywords,
  add_version, add_dependencies, add_features, insert_release, dependency_row,
}
use freighter.PgIndex.Provider.{yank_inner, yank_crate, connection}
use freighter.PgIndex.Provider.Integrity.{created, after_publish, after_yank, Served-IsSound}
use freighter.PgIndex.Tables.Integrity.{IsSound}
use freighter.PgIndex.Provider.Confirm.{Confirms, confirm-publish}
use freighter.Tests.Files.{numbers, bare_publish}

abbrev healthy : Database
healthy = record { fault = λ n. none; took_effect = λ n. false }

abbrev first_of : Text → Bytes
first_of t = t

abbrev decimal : Codec numbers
decimal = record {
  version_parse = λ t. elim t [ [] ↦ err [] | n ∷ _ ↦ ok n ];
  req_parse = λ t. elim t [ [] ↦ err [] | n ∷ _ ↦ ok n ];
  hex_encode = λ bytes. bytes;
  hex_decode = λ t. ok t;
}

abbrev no_rows : Session
no_rows = record {
  tables = record {
    crates = [];
    versions = [];
    features = [];
    dependencies = [];
    keywords = [];
    categories = [];
    crate_keywords = [];
    crate_categories = [];
    next_id = 0;
    clock = 0;
  };
  asked = 0;
}

abbrev uploads : ℕ → Result IndexError (Unit {0}) × ℕ
uploads w = (ok tt, suc w)

abbrev refuses : ℕ → Result IndexError (Unit {0}) × ℕ
refuses w = (err IndexError.not_found, w)

abbrev with_release : Session
with_release =
    (Publish.publish healthy decimal (bare_publish (codes "serde") 1) (9 ∷ []) uploads
      (no_rows, 0)).1.0

published :
    Publish.publish healthy decimal (bare_publish (codes "serde") 1) (9 ∷ []) uploads (no_rows, 0)
    ≡ (ok (record { warnings = none }), (with_release, 1))
unfolding Publish.publish insert_release prepare query ask refresh_crate is_changed option_text_beq
    sync_keywords add_names prune_names add_version add_dependencies add_features for_each
    get_or_insert_crate find_crate new_crate insert_version get_crate_keywords get_crate_categories
    linked_names commit text_beq ◌>>=◌ lift pure raise gets modify
published = refl

confirm-publish_example :
    Confirms healthy decimal
      (codes "serde")
      1
      (record { yanked = false; tarball_checksum = 9 ∷ [] })
      with_release
confirm-publish_example =
    confirm-publish healthy decimal (bare_publish (codes "serde") 1) (9 ∷ []) uploads no_rows
      with_release 0 1 (record { warnings = none }) refl published

abbrev refusal : IndexError
refusal = IndexError.service_error (
    context (codes "Failed to execute end step in index upload transaction")
      (any_of_index IndexError.not_found))

abbrev after_refusal : Session
after_refusal =
    (Publish.publish healthy decimal (bare_publish (codes "serde") 1) (9 ∷ []) refuses
      (no_rows, 0)).1.0

refused :
    Publish.publish healthy decimal (bare_publish (codes "serde") 1) (9 ∷ []) refuses (no_rows, 0)
    ≡ (err refusal, (after_refusal, 0))
unfolding Publish.publish insert_release prepare query ask refresh_crate is_changed option_text_beq
    sync_keywords add_names prune_names add_version add_dependencies add_features for_each
    get_or_insert_crate find_crate new_crate insert_version get_crate_keywords get_crate_categories
    linked_names commit text_beq ◌>>=◌ lift pure raise gets modify
refused = refl

publish_atomic_example :
    (after_refusal.tables ≡ no_rows.tables)
    ⊎ ((n : ℕ) × (false ≡ true)
        × (refuses 0 ≡ (ok tt, 0))
        × Released decimal
            (bare_publish (codes "serde") 1)
            (9 ∷ [])
            no_rows.tables.versions
            after_refusal.tables)
publish_atomic_example =
    publish_atomic healthy decimal (bare_publish (codes "serde") 1) (9 ∷ []) refuses no_rows
      after_refusal 0 0 refusal refused

abbrev with_yank : Session
with_yank = (yank_inner healthy numbers (codes "serde") 1 true with_release).1

yanked : yank_inner healthy numbers (codes "serde") 1 true with_release ≡ (ok tt, with_yank)
unfolding Publish.publish insert_release prepare query ask refresh_crate is_changed option_text_beq
    sync_keywords add_names prune_names add_version add_dependencies add_features for_each
    get_or_insert_crate find_crate new_crate insert_version get_crate_keywords get_crate_categories
    linked_names commit text_beq ◌>>=◌ lift pure raise gets modify yank_inner connection set_yank
    yank_rows
yanked = refl

yank_marks_example :
    (1 ≡ length (rows_of (codes "serde") (1 ∷ []) with_release.tables))
    × (rows_of (codes "serde") (1 ∷ []) with_yank.tables
        ≡ map (mark true) (rows_of (codes "serde") (1 ∷ []) with_release.tables))
    × (rows_of (codes "serde") (2 ∷ []) with_yank.tables
        ≡ rows_of (codes "serde") (2 ∷ []) with_release.tables)
yank_marks_example =
    yank_marks numbers healthy (codes "serde") 1 true (2 ∷ []) with_release with_yank
      (λ e. absurd (ground arith)) yanked

Served-IsSound_example :
    IsSound (yank_crate healthy numbers (codes "serde") 1 with_release).1.tables
Served-IsSound_example = Served-IsSound healthy decimal ℕ (
    after_yank with_release (codes "serde") 1
      (after_publish no_rows (bare_publish (codes "serde") 1) (9 ∷ []) uploads 0 (created 0)))

pg_index-RunsEndStep_example : RunsEndStep (pg_index healthy decimal (λ found. found))
pg_index-RunsEndStep_example = pg_index-RunsEndStep healthy decimal (λ found. found)

abbrev renamed : PublishDependency numbers
renamed = record {
  name = codes "serde_json";
  version_req = 1;
  features = [];
  optional = false;
  default_features = true;
  target = none;
  kind = DependencyKind.normal;
  registry = none;
  explicit_name_in_toml = some (codes "json");
}

abbrev target_crate : CrateRow
target_crate = record {
  id = 4;
  name = codes "serde_json";
  registry = [];
  description = none;
  documentation = none;
  homepage = none;
  repository = none;
  created_at = 0;
  updated_at = some 0;
}

abbrev crate_of : PublishDependency numbers → CrateRow
crate_of d = record target_crate { name = d.name; registry = unwrap_or d.registry [] }

abbrev with_dependency : Publish numbers
with_dependency = record (bare_publish (codes "serde") 1) {
  deps = renamed ∷ [];
  features = (codes "std", codes "alloc" ∷ []) ∷ [];
}

one_feature : DistinctKeys with_dependency.features
unfolding Dict.lookup
one_feature = (refl, tt)

version_of_row-released_row_example :
    version_of_row decimal (codes "serde") (
      released_row decimal with_dependency (9 ∷ []) 5 4,
      feature_rows 5 with_dependency.features,
      dependency_rows decimal crate_of 5 (renamed ∷ []),
    )
    ≡ ok
        (record (release_of_publish with_dependency (9 ∷ [])) { deps = pg_dependency renamed ∷ [] })
version_of_row-released_row_example =
    version_of_row-released_row decimal crate_of 5 4 with_dependency (9 ∷ []) refl refl
      ((refl, refl, refl), tt) one_feature

abbrev three : List ℕ
three = 1 ∷ 2 ∷ 3 ∷ []

pages_together_example : first_pages 2 2 three ≡ three
pages_together_example = pages_together 1 2 three
