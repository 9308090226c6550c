-- ===== src/Client/Tarball.antt =====
-- `publish` of the command-line client, crates/freighter-client/src/main.rs: the request that is made
-- from the manifest in a tarball.
use freighter.Base.{
  if◌then◌else◌, ◌≡◌, Bool, true, Option, none, some, List, [], ◌∷◌, ◌++◌, map, Text, text_eq,
  text_beq, codes, Bytes, Result, ok, err, unwrap_or, Option-cases, inl, inr, arith,
}
use freighter.Base.Dict.{Dict}
use freighter.Base.Acts.{Act}
use freighter.Types.Error.{AnyError}
use freighter.Types.Index.{
  Semver, DependencyKind, PublishDependency, Publish, CompletedPublication, Features,
}
use freighter.Types.Convert.{index_dependency}
use freighter.Client.Wire.{Http, Failure}
use freighter.Client.{Client, publish}

-- `cargo_toml::DependencyDetail`, of which two fields are read.
pub record DependencyDetail : Type 0 where
  pub default_features : Bool
  pub registry : Option Text

-- `cargo_toml::Dependency`, by its methods.
pub record ManifestDependency : Type 0 where
  pub «package» : Option Text
  pub req : Text
  pub req_features : List Text
  pub optional : Bool
  pub detail : Option DependencyDetail

pub record TargetDependencies : Type 0 where
  pub dependencies : Dict Text ManifestDependency
  pub build_dependencies : Dict Text ManifestDependency

-- `cargo_toml::Manifest`
pub record Manifest : Type 0 where
  pub name : Text
  pub version : Text
  pub description : Option Text
  pub documentation : Option Text
  pub homepage : Option Text
  pub repository : Option Text
  pub links : Option Text
  pub features : Features
  pub dependencies : Dict Text ManifestDependency
  pub build_dependencies : Dict Text ManifestDependency
  pub target : Dict Text TargetDependencies

-- An entry of an archive: the second component of its path, and its bytes.
pub record Entry : Type 0 where
  pub second_component : Option Text
  pub contents : Result AnyError Bytes

-- `semver`, `cargo_toml` and `crate_untar`.
pub record CargoToml (S : Semver) : Type 0 where
  pub version_parse : Text → Option S.Version
  pub req_parse : Text → Option S.VersionReq
  pub manifest_from_slice : Bytes → Result AnyError Manifest
  pub archive_entries : Bytes → Result AnyError (List (Result AnyError Entry))

-- A dependency with its key, its kind and its target.
abbrev pub Keyed : Type 0
Keyed = Text × ManifestDependency × DependencyKind × Option Text

abbrev pub keyed : DependencyKind → Option Text → Dict Text ManifestDependency → List Keyed
keyed kind target = map (λ e. (e.0, e.1, kind, target))

-- The dependencies of the targets.
unfoldable pub target_deps : Dict Text TargetDependencies → List Keyed
target_deps [] = []
target_deps ((target, tdeps) ∷ rest) =
    keyed DependencyKind.normal (some target) tdeps.dependencies
    ++ (keyed DependencyKind.build (some target) tdeps.build_dependencies ++ target_deps rest)

-- `all_deps`: the development dependencies are left out.
unfoldable pub all_deps : Manifest → List Keyed
all_deps manifest =
    keyed DependencyKind.normal none manifest.dependencies
    ++ (keyed DependencyKind.build none manifest.build_dependencies ++ target_deps manifest.target)

-- The registry of a dependency: none is this one.
abbrev pub registry_of : ManifestDependency → Option Text
registry_of dep =
    let crates_io : Option Text = some (codes "https://github.com/rust-lang/crates.io-index") in
    elim dep.detail [
      | none ↦ crates_io
      | some d ↦ elim d.registry [
        | none ↦ crates_io
        | some r ↦ if text_beq r (codes "crates-io") then crates_io else none
      ]
    ]

-- The message of an archive without a manifest.
abbrev no_manifest : AnyError
no_manifest = codes "Can't find Cargo.toml" ∷ []

module _ {S : Semver} (X : CargoToml S) where
  -- `none` where a requirement does not parse, which panics.
  unfoldable pub dependency_of : Keyed → Option (PublishDependency S)
  dependency_of (key, dep, kind, target) = elim (X.req_parse dep.req) [
    | none ↦ none
    | some version_req ↦ some (record {
      name = unwrap_or dep.«package» key;
      version_req = version_req;
      features = dep.req_features;
      optional = dep.optional;
      default_features = elim dep.detail [ none ↦ true | some d ↦ d.default_features ];
      target = target;
      kind = kind;
      registry = registry_of dep;
      explicit_name_in_toml = elim dep.«package» [ none ↦ none | some _ ↦ some key ];
    })
  ]

  unfoldable pub deps_of : List Keyed → Option (List (PublishDependency S))
  deps_of [] = some []
  deps_of (k ∷ ks) = elim (dependency_of k) [
    | none ↦ none
    | some d ↦ elim (deps_of ks) [ none ↦ none | some ds ↦ some (d ∷ ds) ]
  ]

  -- The request of `publish_from_tarball`.
  unfoldable pub publish_of_manifest : Manifest → Option (Publish S)
  publish_of_manifest manifest = elim (X.version_parse manifest.version) [
    | none ↦ none
    | some vers ↦ elim (deps_of (all_deps manifest)) [
      | none ↦ none
      | some deps ↦ some (record {
        name = manifest.name;
        vers = vers;
        deps = deps;
        features = manifest.features;
        authors = [];
        description = manifest.description;
        documentation = manifest.documentation;
        homepage = manifest.homepage;
        readme = none;
        readme_file = none;
        keywords = [];
        categories = [];
        license = none;
        license_file = none;
        repository = manifest.repository;
        badges = none;
        links = manifest.links;
      })
    ]
  ]

  -- The loop of `cargo_toml_from_tarball`; `none` is the panic at a path with one component.
  unfoldable pub find_manifest : List (Result AnyError Entry) → Option (Result AnyError Manifest)
  find_manifest [] = some (err no_manifest)
  find_manifest (err e ∷ entries) = some (err e)
  find_manifest (ok e ∷ entries) = elim e.second_component [
    | none ↦ none
    | some name ↦
        let later = find_manifest entries in
        if text_beq name (codes "Cargo.toml")
        then some (elim e.contents [ err f ↦ err f | ok buf ↦ X.manifest_from_slice buf ])
        else later
  ]

  unfoldable pub cargo_toml_from_tarball : Bytes → Option (Result AnyError Manifest)
  cargo_toml_from_tarball crate_tarball = elim (X.archive_entries crate_tarball) [
    | err e ↦ some (err e)
    | ok entries ↦ find_manifest entries
  ]

  -- The request for a tarball, or a panic.
  unfoldable pub publish_of_tarball : Bytes → Option (Publish S)
  publish_of_tarball tarball = elim (cargo_toml_from_tarball tarball) [
    | none ↦ none
    | some (err e) ↦ none
    | some (ok manifest) ↦ publish_of_manifest manifest
  ]

  -- `publish_from_tarball`, behind the read of the file.
  unfoldable pub publish_from_tarball :
      {H : Http S} → Bytes → Act (Client H) Failure CompletedPublication
  publish_from_tarball tarball c = elim (publish_of_tarball tarball) [
    | none ↦ (err Failure.panic, c)
    | some p ↦ publish p tarball c
  ]

  -- If a dependency of a manifest gets into the publish request of the command-line client, the
  -- entry that the file index makes of it has the key of the manifest as its name, the `package`
  -- of the manifest as its package, its requirement as it was parsed, and its kind and target.
  index_dependency-dependency_of :
      (key : Text) (dep : ManifestDependency) (kind : DependencyKind) (target : Option Text)
      (d : PublishDependency S)
      → dependency_of (key, dep, kind, target) ≡ some d
      → ((index_dependency d).name ≡ key)
        × ((index_dependency d).«package» ≡ dep.«package»)
        × (X.req_parse dep.req ≡ some (index_dependency d).req)
        × ((index_dependency d).kind ≡ kind)
        × ((index_dependency d).target ≡ target)
  unfolding dependency_of index_dependency
  index_dependency-dependency_of key dep kind target d h =
      elim (Option-cases (X.req_parse dep.req)) [
        | inl bad ↦ absurd (ground arith)
        | inr (req, parsed) ↦ elim (Option-cases dep.«package») [
          | inl plain ↦ (ground arith, ground arith, ground arith, ground arith, ground arith)
          | inr (original, renamed) ↦
              (ground arith, ground arith, ground arith, ground arith, ground arith)
        ]
      ]
