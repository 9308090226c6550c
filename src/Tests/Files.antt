-- ===== src/Tests/Files.antt =====
-- A file store and a JSON codec that keep their promises, for the examples of the file index.
use Prim.Native.Nat.{compare}
use freighter.Base.{
  ==_iff, Bool-cases, inl, inr, ap, sym, ◌∙◌, text_eq, all, not, ◌&&◌, eqb, ◌+◌, ◌-◌, if◌then◌else◌,
  ℕ, ◌≡◌, refl, Option, none, some, List, [], ◌∷◌, Text, Bytes, ok, err, Bool, true, false, nat_eq,
  arith,
}
use freighter.Base.Dict
use freighter.Base.Dict.{Dict, lookup-insert}
use freighter.Types.Error.{StorageError}
use freighter.Types.Index.{Semver, CrateVersion, Publish}
use freighter.Storage.Metadata.{MetadataStorage, IsStorage}
use freighter.FsIndex.Meta.{Json, is_newline}
use freighter.FsIndex.Meta.RoundTrip.{IsJson}

abbrev pub numbers : Semver
numbers = record {
  Version = ℕ;
  VersionReq = ℕ;
  version_eq = nat_eq;
  zero_version = 0;
  version_cmp = compare;
  version_to_string = λ n. n ∷ [];
  req_to_string = λ n. n ∷ [];
}

-- Files by their paths.
abbrev pub files : MetadataStorage
files = record {
  State = Dict Text Bytes;
  pull_file = λ path s. elim (Dict.lookup path s) [
    | none ↦ err StorageError.not_found
    | some bytes ↦ ok (record { last_modified = none; «data» = bytes })
  ];
  put_file = λ path bytes meta s. (ok tt, Dict.insert path bytes s);
  delete_file = λ path s. (ok tt, Dict.remove path s);
  list_prefix = λ prefix s. ok (Dict.keys s);
  healthcheck = λ s. (ok tt, s);
}

pub files-IsStorage : IsStorage files
files-IsStorage = record {
  pull-put_self = λ path bytes meta s h.
      (none, ground (arith, ==_iff path path, lookup-insert path path bytes s));
  pull-put_ne = λ path other bytes meta s ne.
      ground (arith, ==_iff path other, lookup-insert path other bytes s);
  pull-put_failed = λ path other bytes meta s e h. absurd (ground arith);
}

abbrev is_nil {ℓ} : {A : Type ℓ} → List A → Bool
is_nil [] = true
is_nil (x ∷ xs) = false

is_nil-nil {ℓ} : {A : Type ℓ} (xs : List A) → is_nil xs ≡ true → xs ≡ []
is_nil-nil [] h = refl
is_nil-nil (x ∷ xs) h = absurd (ground arith)

abbrev is_absent {ℓ} : {A : Type ℓ} → Option A → Bool
is_absent none = true
is_absent (some x) = false

is_absent-none {ℓ} : {A : Type ℓ} (x : Option A) → is_absent x ≡ true → x ≡ none
is_absent-none none h = refl
is_absent-none (some x) h = absurd (ground arith)

-- A version with nothing but a name, a number and a flag.
abbrev pub bare_version : Text → ℕ → Bool → CrateVersion numbers
bare_version name vers yanked = record {
  name = name;
  vers = vers;
  deps = [];
  cksum = [];
  features = [];
  yanked = yanked;
  links = none;
  v = 2;
  features2 = [];
}

-- A request with nothing but a name and a number.
abbrev pub bare_publish : Text → ℕ → Publish numbers
bare_publish name vers = record {
  name = name;
  vers = vers;
  deps = [];
  features = [];
  authors = [];
  description = none;
  documentation = none;
  homepage = none;
  readme = none;
  readme_file = none;
  keywords = [];
  categories = [];
  license = none;
  license_file = none;
  repository = none;
  badges = none;
  links = none;
}

abbrev is_bare : CrateVersion numbers → Bool
is_bare v =
    all (λ c. not (is_newline c)) v.name
    && (is_nil v.deps
        && (is_nil v.cksum
            && (is_nil v.features && (is_absent v.links && (eqb v.v 2 && is_nil v.features2)))))

is_bare-bare :
    (v : CrateVersion numbers) → is_bare v ≡ true → v ≡ bare_version v.name v.vers v.yanked
is_bare-bare v h =
    let deps : v.deps ≡ [] = is_nil-nil v.deps (ground arith) in
    let cksum : v.cksum ≡ [] = is_nil-nil v.cksum (ground arith) in
    let features : v.features ≡ [] = is_nil-nil v.features (ground arith) in
    let links : v.links ≡ none = is_absent-none v.links (ground arith) in
    let version : v.v ≡ 2 = ground arith in
    let features2 : v.features2 ≡ [] = is_nil-nil v.features2 (ground arith) in cc

abbrev is_bare_publish : Publish numbers → Bool
is_bare_publish p =
    all (λ c. not (is_newline c)) p.name
    && (is_nil p.deps
        && (is_nil p.features
            && (is_nil p.authors
                && (is_absent p.description
                    && (is_absent p.documentation
                        && (is_absent p.homepage
                            && (is_absent p.readme
                                && (is_absent p.readme_file
                                    && (is_nil p.keywords
                                        && (is_nil p.categories
                                            && (is_absent p.license
                                                && (is_absent p.license_file
                                                    && (is_absent p.repository
                                                        && (is_absent p.badges
                                                            && (is_absent p.links)))))))))))))))

is_bare_publish-bare :
    (p : Publish numbers) → is_bare_publish p ≡ true → p ≡ bare_publish p.name p.vers
is_bare_publish-bare p h =
    let deps : p.deps ≡ [] = is_nil-nil p.deps (ground arith) in
    let features : p.features ≡ [] = is_nil-nil p.features (ground arith) in
    let authors : p.authors ≡ [] = is_nil-nil p.authors (ground arith) in
    let description : p.description ≡ none = is_absent-none p.description (ground arith) in
    let documentation : p.documentation ≡ none = is_absent-none p.documentation (ground arith) in
    let homepage : p.homepage ≡ none = is_absent-none p.homepage (ground arith) in
    let readme : p.readme ≡ none = is_absent-none p.readme (ground arith) in
    let readme_file : p.readme_file ≡ none = is_absent-none p.readme_file (ground arith) in
    let keywords : p.keywords ≡ [] = is_nil-nil p.keywords (ground arith) in
    let categories : p.categories ≡ [] = is_nil-nil p.categories (ground arith) in
    let license : p.license ≡ none = is_absent-none p.license (ground arith) in
    let license_file : p.license_file ≡ none = is_absent-none p.license_file (ground arith) in
    let repository : p.repository ≡ none = is_absent-none p.repository (ground arith) in
    let badges : p.badges ≡ none = is_absent-none p.badges (ground arith) in
    let links : p.links ≡ none = is_absent-none p.links (ground arith) in cc

abbrev flag : Bool → ℕ
flag true = 1
flag false = 2

abbrev read_version : Bytes → Option (CrateVersion numbers)
read_version (mark ∷ f ∷ n ∷ name) =
    if eqb mark 1 then some (bare_version name (n - 11) (eqb f 1)) else none
read_version _ = none

abbrev read_publish : Bytes → Option (Publish numbers)
read_publish (mark ∷ n ∷ name) = if eqb mark 2 then some (bare_publish name (n - 11)) else none
read_publish _ = none

-- Each line has a mark, and then the fields that there are.
abbrev pub codec : Json numbers
codec = record {
  version_to_json =
      λ v. if is_bare v then ok (1 ∷ flag v.yanked ∷ (v.vers + 11) ∷ v.name) else err [];
  version_of_json = read_version;
  publish_to_json = λ p. if is_bare_publish p then ok (2 ∷ (p.vers + 11) ∷ p.name) else err [];
  publish_of_json = read_publish;
}

version-read :
    (v : CrateVersion numbers)
    → read_version (1 ∷ flag v.yanked ∷ (v.vers + 11) ∷ v.name)
      ≡ some (bare_version v.name v.vers v.yanked)
version-read v = ground arith

publish-read :
    (p : Publish numbers)
    → read_publish (2 ∷ (p.vers + 11) ∷ p.name) ≡ some (bare_publish p.name p.vers)
publish-read p = ground arith

publish-not_version : (n : ℕ) (name : Text) → read_version (2 ∷ n ∷ name) ≡ none
publish-not_version n [] = refl
publish-not_version n (c ∷ t) = refl

pub codec-IsJson : IsJson codec
codec-IsJson = record {
  version_line = λ v line h. elim (Bool-cases (is_bare v)) [
    | inl bare ↦
        let eq : line ≡ 1 ∷ flag v.yanked ∷ (v.vers + 11) ∷ v.name = ground arith in
        rw eq ((ground arith, refl), version-read v ∙ ap some (sym (is_bare-bare v bare)))
    | inr other ↦ absurd (ground arith)
  ];
  publish_line = λ p line h. elim (Bool-cases (is_bare_publish p)) [
    | inl bare ↦
        let eq : line ≡ 2 ∷ (p.vers + 11) ∷ p.name = ground arith in
        rw eq (
          (ground arith, refl),
          publish-not_version (p.vers + 11) p.name,
          publish-read p ∙ ap some (sym (is_bare_publish-bare p bare)),
        )
    | inr other ↦ absurd (ground arith)
  ];
}
