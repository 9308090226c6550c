-- ===== src/PgIndex/Rows/Dependencies.antt =====
-- A dependency of a publish request, as the Postgres index gives it back
-- (crates/freighter-pg-index/src/lib.rs).
use freighter.Base.{◌≡◌, ℕ, [], ok, unwrap_or, Option-cases, inl, inr, arith}
use freighter.Types.Index.{Semver, PublishDependency}
use freighter.Types.Convert.{index_dependency}
use freighter.PgIndex.Tables.{CrateRow}
use freighter.PgIndex.Publish.{Codec, dependency_row}
use freighter.PgIndex.Rows.{filter_registry, dependency_of_row}

-- If a requirement is read back as it was written, the row of a dependency, joined with the crate
-- that it is on, is read as the entry that the file index would write, but with the name of the
-- original package as the name, the new name as the package, and without an empty registry.
pub dependency_of_row-dependency_row :
    {S : Semver} (C : Codec S) (version_id : ℕ) (d : PublishDependency S) (c : CrateRow)
    → C.req_parse (S.req_to_string d.version_req) ≡ ok d.version_req
    → c.name ≡ d.name
    → c.registry ≡ unwrap_or d.registry []
    → dependency_of_row C (dependency_row version_id d c.id, c)
      ≡ ok (record (index_dependency d) {
        name = d.name;
        «package» = d.explicit_name_in_toml;
        registry = filter_registry (unwrap_or d.registry []);
      })
unfolding dependency_of_row dependency_row index_dependency
dependency_of_row-dependency_row C version_id d c parsed named registered =
    elim (Option-cases d.explicit_name_in_toml) [
      | inl plain ↦ ground arith
      | inr (alias, renamed) ↦ ground arith
    ]
