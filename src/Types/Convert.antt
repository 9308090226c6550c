-- ===== src/Types/Convert.antt =====
-- The two directions between a publish request and an index entry: the entry that
-- `FsIndexProvider::publish` builds (crates/freighter-fs-index/src/lib.rs) and
-- `impl From<CrateVersion> for Publish` (crates/freighter-api-types/src/index/mod.rs).
use freighter.Base.{
  ◌≡◌, refl, ap₂, false, Option, none, some, List, [], ◌∷◌, map, Bytes, arith, Text,
}
use freighter.Types.Index.{
  Semver, Dependency, CrateVersion, PublishDependency, Publish, empty_publish,
}

module _ {S : Semver} where
  -- An entry of `deps` of the index entry: a renamed dependency has its new name in `name`.
  unfoldable pub index_dependency : PublishDependency S → Dependency S
  index_dependency d =
      let entry : Text → Option Text → Dependency S = λ alias original. record {
        name = alias;
        req = d.version_req;
        features = d.features;
        optional = d.optional;
        default_features = d.default_features;
        target = d.target;
        kind = d.kind;
        registry = d.registry;
        «package» = original;
      } in
      elim d.explicit_name_in_toml [
        | none ↦ entry d.name none
        | some renamed ↦ entry renamed (some d.name)
      ]

  -- The new index entry for a publish request and the digest of its tarball.
  unfoldable pub release_of_publish : Publish S → Bytes → CrateVersion S
  release_of_publish p cksum = record {
    name = p.name;
    vers = p.vers;
    deps = map index_dependency p.deps;
    cksum = cksum;
    features = p.features;
    yanked = false;
    links = p.links;
    v = 2;
    features2 = [];
  }

  -- An entry of `deps` of the request: the other way round.
  unfoldable pub publish_dependency : Dependency S → PublishDependency S
  publish_dependency x =
      let entry : Text → Option Text → PublishDependency S = λ package_name explicit_name. record {
        name = package_name;
        version_req = x.req;
        features = x.features;
        optional = x.optional;
        default_features = x.default_features;
        target = x.target;
        kind = x.kind;
        registry = x.registry;
        explicit_name_in_toml = explicit_name;
      } in
      elim x.«package» [ none ↦ entry x.name none | some original ↦ entry original (some x.name) ]

  -- `impl From<CrateVersion> for Publish`
  unfoldable pub publish_of_version : CrateVersion S → Publish S
  publish_of_version value = record {
    name = value.name;
    vers = value.vers;
    deps = map publish_dependency value.deps;
    features = value.features;
    authors = [];
    description = none;
    documentation = none;
    homepage = none;
    readme = none;
    readme_file = none;
    keywords = [];
    categories = [];
    license = none;
    license_file = none;
    repository = none;
    badges = none;
    links = none;
  }

  dependency_back : (d : PublishDependency S) → publish_dependency (index_dependency d) ≡ d
  unfolding index_dependency publish_dependency
  dependency_back d = ground arith

  dependencies_back :
      (ds : List (PublishDependency S)) → map publish_dependency (map index_dependency ds) ≡ ds
  dependencies_back [] = refl
  dependencies_back (d ∷ ds) = ap₂ ◌∷◌ (dependency_back d) (dependencies_back ds)

  dependency_forth : (d : Dependency S) → index_dependency (publish_dependency d) ≡ d
  unfolding index_dependency publish_dependency
  dependency_forth d = ground arith

  dependencies_forth :
      (ds : List (Dependency S)) → map index_dependency (map publish_dependency ds) ≡ ds
  dependencies_forth [] = refl
  dependencies_forth (d ∷ ds) = ap₂ ◌∷◌ (dependency_forth d) (dependencies_forth ds)

  -- A publish request that became an index entry and is read back has its name, version,
  -- dependencies (renamed or not) and features again; all other fields are empty.
  pub publish_of_version-release_of_publish :
      (p : Publish S) (cksum : Bytes)
      → publish_of_version (release_of_publish p cksum) ≡ record (empty_publish S) {
        name = p.name;
        vers = p.vers;
        deps = p.deps;
        features = p.features;
      }
  unfolding publish_of_version release_of_publish empty_publish
  publish_of_version-release_of_publish p cksum = rw (dependencies_back p.deps)

  -- An index entry that became a publish request and is published again under its own digest is
  -- the same entry, except that it is not yanked, has schema version 2, and has lost `links` and
  -- `features2`.
  release_of_publish-publish_of_version :
      (v : CrateVersion S)
      → release_of_publish (publish_of_version v) v.cksum
        ≡ record v { yanked = false; links = none; v = 2; features2 = [] }
  unfolding publish_of_version release_of_publish
  release_of_publish-publish_of_version v = rw (dependencies_forth v.deps)
