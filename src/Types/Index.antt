-- ===== src/Types/Index.antt =====
-- crates/freighter-api-types/src/index: the index entries and the publish request.
-- `semver` is not part of the repository: its types are the parameter `Semver`.
use Prim.Native.Nat.{Ordering}
use freighter.Base.{ℕ, Bool, Option, none, List, [], Text, Bytes, Eq}
use freighter.Base.Dict.{Dict}

-- What the program uses of the crate `semver`.
pub record Semver : Type 1 where
  pub Version : Type 0
  pub VersionReq : Type 0
  pub version_eq : Eq Version
  pub zero_version : Version
  pub version_cmp : Version → Version → Ordering
  pub version_to_string : Version → Text
  pub req_to_string : VersionReq → Text

pub data DependencyKind : Type 0 where
  normal dev build : DependencyKind

abbrev pub Features : Type 0
Features = Dict Text (List Text)

module _ (S : Semver) where
  -- An entry of `CrateVersion::deps`.
  pub record Dependency : Type 0 where
    pub name : Text
    pub req : S.VersionReq
    pub features : List Text
    pub optional : Bool
    pub default_features : Bool
    pub target : Option Text
    pub kind : DependencyKind
    pub registry : Option Text
    pub «package» : Option Text

  -- One line of an index file. `v` is a `u32`, which the program sets and never computes with.
  pub record CrateVersion : Type 0 where
    pub name : Text
    pub vers : S.Version
    pub deps : List Dependency
    pub cksum : Bytes
    pub features : Features
    pub yanked : Bool
    pub links : Option Text
    pub v : ℕ
    pub features2 : Features

  pub record PublishDependency : Type 0 where
    pub name : Text
    pub version_req : S.VersionReq
    pub features : List Text
    pub optional : Bool
    pub default_features : Bool
    pub target : Option Text
    pub kind : DependencyKind
    pub registry : Option Text
    pub explicit_name_in_toml : Option Text

  pub record Publish : Type 0 where
    pub name : Text
    pub vers : S.Version
    pub deps : List PublishDependency
    pub features : Features
    pub authors : List Text
    pub description : Option Text
    pub documentation : Option Text
    pub homepage : Option Text
    pub readme : Option Text
    pub readme_file : Option Text
    pub keywords : List Text
    pub categories : List Text
    pub license : Option Text
    pub license_file : Option Text
    pub repository : Option Text
    pub badges : Option (Dict Text (Dict Text Text))
    pub links : Option Text

  -- `Publish::empty`
  unfoldable pub empty_publish : Publish
  empty_publish = record {
    name = [];
    vers = S.zero_version;
    deps = [];
    features = [];
    authors = [];
    description = none;
    documentation = none;
    homepage = none;
    readme = none;
    readme_file = none;
    keywords = [];
    categories = [];
    license = none;
    license_file = none;
    repository = none;
    badges = none;
    links = none;
  }

  -- `SparseEntries`; a `DateTime<Utc>` is a number that the program only passes on.
  pub record SparseEntries : Type 0 where
    pub entries : List CrateVersion
    pub last_modified : Option ℕ

  pub record ListAllCrateEntry : Type 0 where
    pub name : Text
    pub versions : List S.Version
    pub description : Text
    pub created_at : ℕ
    pub updated_at : ℕ
    pub homepage : Option Text
    pub repository : Option Text
    pub documentation : Option Text
    pub keywords : List Text
    pub categories : List Text

  pub record SearchResultsEntry : Type 0 where
    pub name : Text
    pub max_version : S.Version
    pub description : Text

  pub record SearchResults : Type 0 where
    pub crates : List SearchResultsEntry
    pub total : ℕ

pub record CrateVersionExists : Type 0 where
  pub yanked : Bool
  pub tarball_checksum : Bytes

pub record CompletedPublicationWarnings : Type 0 where
  pub invalid_categories : List Text
  pub invalid_badges : List Text
  pub other : List Text

pub record CompletedPublication : Type 0 where
  pub warnings : Option CompletedPublicationWarnings
