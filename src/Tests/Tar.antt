-- ===== src/Tests/Tar.antt =====
-- An example of a dependency in the manifest of a tarball.
use freighter.Base.{◌≡◌, refl, true, none, some, [], codes, ok}
use freighter.Types.Index.{PublishDependency, DependencyKind}
use freighter.Client.Tarball.{ManifestDependency, CargoToml, dependency_of, registry_of}
use freighter.Tests.Files.{numbers}

abbrev pub cargo : CargoToml numbers
cargo = record {
  version_parse = λ t. some 1;
  req_parse = λ t. some 2;
  manifest_from_slice = λ bytes. ok (record {
    name = codes "serde";
    version = codes "1.0.0";
    description = none;
    documentation = none;
    homepage = none;
    repository = none;
    links = none;
    features = [];
    dependencies = [];
    build_dependencies = [];
    target = [];
  });
  archive_entries = λ bytes. ok [];
}

abbrev renamed : ManifestDependency
renamed = record {
  «package» = some (codes "serde_json");
  req = codes "^1";
  req_features = [];
  optional = true;
  detail = none;
}

abbrev in_request : PublishDependency numbers
in_request = record {
  name = codes "serde_json";
  version_req = 2;
  features = [];
  optional = true;
  default_features = true;
  target = none;
  kind = DependencyKind.build;
  registry = registry_of renamed;
  explicit_name_in_toml = some (codes "json");
}

read : dependency_of cargo (codes "json", renamed, DependencyKind.build, none) ≡ some in_request
unfolding dependency_of
read = refl
