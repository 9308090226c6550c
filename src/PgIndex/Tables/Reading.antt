-- ===== src/PgIndex/Tables/Reading.antt =====
-- The statements that read the tables, and the one that yanks (crates/freighter-pg-index/sql).
use freighter.Base.{
  ℕ, suc, Bool, ◌&&◌, Option, none, some, List, [], ◌∷◌, ◌++◌, map, Text, text_eq, text_beq, eqb,
  retain, if◌then◌else◌,
}
use freighter.PgIndex.Tables.{
  CrateRow, VersionRow, FeatureRow, DependencyRow, find_crate, Statement,
}

-- set-yank.sql: the rows that were updated, and the tables.
unfoldable pub yank_rows : ℕ → Text → Bool → List VersionRow → ℕ × List VersionRow
yank_rows crate_id version yanked [] = (0, [])
yank_rows crate_id version yanked (v ∷ rows) =
    let (count, rest) = yank_rows crate_id version yanked rows in
    if eqb v.«crate» crate_id && text_beq v.version version
    then (suc count, record v { yanked = yanked } ∷ rest)
    else (count, v ∷ rest)

unfoldable pub set_yank : Text → Text → Bool → Statement ℕ
set_yank name version yanked t = elim (find_crate name [] t.crates) [
  | none ↦ some (0, t)
  | some c ↦
      let (count, rows) = yank_rows c.id version yanked t.versions in
      some (count, record t { versions = rows })
]

-- confirm-existence.sql
unfoldable pub version_rows : ℕ → Text → List VersionRow → List VersionRow
version_rows crate_id version = retain (λ v. eqb v.«crate» crate_id && text_beq v.version version)

unfoldable pub confirm_rows : Text → Text → Statement (List VersionRow)
confirm_rows name version t = elim (find_crate name [] t.crates) [
  | none ↦ some ([], t)
  | some c ↦ some (version_rows c.id version t.versions, t)
]

-- sparse-index/get-crate.sql, get-versions.sql, get-features.sql and get-dependencies.sql
unfoldable pub get_crate : Text → Statement (Option ℕ)
get_crate name t = elim (find_crate name [] t.crates) [
  | none ↦ some (none, t)
  | some c ↦ some (some c.id, t)
]

unfoldable pub get_versions : ℕ → Statement (List VersionRow)
get_versions crate_id t = some (retain (λ v. eqb v.«crate» crate_id) t.versions, t)

unfoldable pub get_features : ℕ → Statement (List FeatureRow)
get_features version_id t = some (retain (λ f. eqb f.crate_version version_id) t.features, t)

-- The join of a dependency with the crate that it is on.
unfoldable pub joined : List CrateRow → List DependencyRow → List (DependencyRow × CrateRow)
joined crates [] = []
joined crates (d ∷ rows) =
    map (λ c. (d, c)) (retain (λ c. eqb c.id d.dependency) crates) ++ joined crates rows

unfoldable pub get_dependencies : ℕ → Statement (List (DependencyRow × CrateRow))
get_dependencies version_id t =
    some (joined t.crates (retain (λ d. eqb d.dependent version_id) t.dependencies), t)
