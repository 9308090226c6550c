-- ===== src/PgIndex/Tables.antt =====
-- The tables of the Postgres index (sql/init-index-db.sql), and the statements of
-- crates/freighter-pg-index/sql/publish on crates and versions. One counter gives the ids of all
-- tables.
pub mod Names
pub mod Reading
pub mod Integrity
pub mod Marking
use freighter.Base.{
  ℕ, suc, Bool, not, ◌&&◌, Option, none, some, List, [], ◌∷◌, ◌++◌, map, Text, text_eq, text_beq,
  eqb, any, retain, if◌then◌else◌,
}
use freighter.Types.Index.{DependencyKind}

pub record CrateRow : Type 0 where
  pub id : ℕ
  pub name : Text
  pub registry : Text
  pub description : Option Text
  pub documentation : Option Text
  pub homepage : Option Text
  pub repository : Option Text
  pub created_at : ℕ
  pub updated_at : Option ℕ

pub record VersionRow : Type 0 where
  pub id : ℕ
  pub «crate» : ℕ
  pub version : Text
  pub cksum : Text
  pub yanked : Bool
  pub links : Option Text

pub record FeatureRow : Type 0 where
  pub crate_version : ℕ
  pub name : Text
  pub values : List Text

pub record DependencyRow : Type 0 where
  pub dependent : ℕ
  pub dependency : ℕ
  pub req : Text
  pub features : List Text
  pub optional : Bool
  pub default_features : Bool
  pub target : Option Text
  pub kind : DependencyKind
  pub «package» : Option Text

-- A row of `keywords` or `categories`.
pub record NameRow : Type 0 where
  pub id : ℕ
  pub name : Text

-- A row of `crate_keywords` or `crate_categories`.
pub record LinkRow : Type 0 where
  pub «crate» : ℕ
  pub name_id : ℕ

pub record Tables : Type 0 where
  pub crates : List CrateRow
  pub versions : List VersionRow
  pub features : List FeatureRow
  pub dependencies : List DependencyRow
  pub keywords : List NameRow
  pub categories : List NameRow
  pub crate_keywords : List LinkRow
  pub crate_categories : List LinkRow
  pub next_id : ℕ
  pub clock : ℕ

-- The row that is unique under `unique (name, registry)`.
unfoldable pub find_crate : Text → Text → List CrateRow → Option CrateRow
find_crate name registry [] = none
find_crate name registry (c ∷ rows) =
    if text_beq c.name name && text_beq c.registry registry
    then some c
    else find_crate name registry rows

-- `update crates .. where id = ..`
unfoldable pub update_row : ℕ → (CrateRow → CrateRow) → List CrateRow → List CrateRow
update_row id f [] = []
update_row id f (c ∷ rows) = (if eqb c.id id then f c else c) ∷ update_row id f rows

unfoldable pub new_crate : Text → Text → Option ℕ → Tables → CrateRow
new_crate name registry updated_at t = record {
  id = t.next_id;
  name = name;
  registry = registry;
  description = none;
  documentation = none;
  homepage = none;
  repository = none;
  created_at = t.clock;
  updated_at = updated_at;
}

-- A statement gives its answer and the tables after it; `none` if a constraint is violated.
abbrev pub Statement : Type 0 → Type 0
Statement A = Tables → Option (A × Tables)

-- publish/get-or-insert-crate.sql
unfoldable pub get_or_insert_crate : Text → Statement CrateRow
get_or_insert_crate name t = elim (find_crate name [] t.crates) [
  | some c ↦ some (
    record c { updated_at = some t.clock },
    record t { crates = update_row c.id (λ r. record r { updated_at = some t.clock }) t.crates },
  )
  | none ↦ some (
    new_crate name [] (some t.clock) t,
    record t {
      crates = t.crates ++ new_crate name [] (some t.clock) t ∷ [];
      next_id = suc t.next_id;
    },
  )
]

-- publish/update-crate.sql
unfoldable pub update_crate :
    ℕ → Option Text → Option Text → Option Text → Option Text → Statement (Unit {0})
update_crate id description documentation homepage repository t = some (
  tt,
  record t {
    crates =
        update_row id
          (λ r. record r {
            description = description;
            documentation = documentation;
            homepage = homepage;
            repository = repository;
          })
          t.crates;
  },
)

-- publish/insert-version.sql, under `unique (crate, version)`
unfoldable pub insert_version : ℕ → Text → Text → Bool → Option Text → Statement ℕ
insert_version crate_id version cksum yanked links t =
    if any (λ v. eqb v.«crate» crate_id && text_beq v.version version) t.versions
    then none
    else some (
      t.next_id,
      record t {
        versions =
            t.versions
            ++ record {
              id = t.next_id;
              «crate» = crate_id;
              version = version;
              cksum = cksum;
              yanked = yanked;
              links = links;
            }
              ∷ [];
        next_id = suc t.next_id;
      },
    )

-- publish/insert-dependency.sql: the crate that is depended on is entered if it is not there.
unfoldable pub insert_dependency : Text → Text → (ℕ → DependencyRow) → Statement (Unit {0})
insert_dependency name registry row t = elim (find_crate name registry t.crates) [
  | some c ↦ some (tt, record t { dependencies = t.dependencies ++ row c.id ∷ [] })
  | none ↦ some (
    tt,
    record t {
      crates = t.crates ++ new_crate name registry none t ∷ [];
      dependencies = t.dependencies ++ row t.next_id ∷ [];
      next_id = suc t.next_id;
    },
  )
]

-- publish/insert-features.sql, under `unique (crate_version, name)`
unfoldable pub insert_feature : ℕ → Text → List Text → Statement (Unit {0})
insert_feature version_id name values t =
    if any (λ f. eqb f.crate_version version_id && text_beq f.name name) t.features
    then none
    else some (
      tt,
      record t {
        features =
            t.features ++ record { crate_version = version_id; name = name; values = values } ∷ [];
      },
    )
