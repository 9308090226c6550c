-- ===== src/PgIndex/Rows/Released.antt =====
-- A release that `PgIndexProvider::publish` has written, as `get_sparse_entry` reads it back
-- (crates/freighter-pg-index/src/lib.rs).
use freighter.Base.{
  ap, append_assoc, ◌≡◌, refl, sym, ◌∙◌, append-nil, ℕ, List, [], ◌∷◌, ◌++◌, map, All, Text,
  text_beq, text_beq_iff, text_eq, Bytes, ok, none, false, unwrap_or, arith,
}
use freighter.Types.Index.{Semver, Dependency, PublishDependency, Publish, Features}
use freighter.Types.Convert.{index_dependency, release_of_publish}
use freighter.PgIndex.Tables.{CrateRow, FeatureRow, DependencyRow}
use freighter.PgIndex.Publish.{Codec, dependency_row}
use freighter.PgIndex.Publish.Released.{released_row}
use freighter.PgIndex.Rows.{filter_registry, features_of_rows, deps_of_rows, version_of_row}
use freighter.PgIndex.Rows.Dependencies.{dependency_of_row-dependency_row}
use freighter.Types.Normalize.Idempotent.{DistinctKeys}
use freighter.Base.Dict

-- The rows that `add_features` writes for a version.
abbrev pub feature_rows : ℕ → Features → List FeatureRow
feature_rows n = map (λ f. record { crate_version = n; name = f.0; values = f.1 })

insert_absent :
    (k : Text) (v : List Text) (m : Features)
    → Dict.lookup k m ≡ none
    → Dict.insert k v m ≡ m ++ (k, v) ∷ []
unfolding Dict.lookup Dict.insert
insert_absent k v [] h = refl
insert_absent k v ((j, u) ∷ m) h = ground (arith, insert_absent k v m)

lookup-append_absent :
    (j k : Text) (v : List Text) (m : Features)
    → Dict.lookup j m ≡ none
    → text_beq k j ≡ false
    → Dict.lookup j (m ++ (k, v) ∷ []) ≡ none
unfolding Dict.lookup
lookup-append_absent j k v [] h ne = ground arith
lookup-append_absent j k v ((i, u) ∷ m) h ne = ground (arith, lookup-append_absent j k v m)

-- No key of the second map stands in the first.
abbrev Apart : Features → Features → Type 0
Apart m fs = All (λ f. Dict.lookup f.0 m ≡ none) fs

Apart-append :
    (k : Text) (v : List Text) (m fs : Features)
    → Dict.lookup k fs ≡ none
    → Apart m fs
    → Apart (m ++ (k, v) ∷ []) fs
unfolding Dict.lookup
Apart-append k v m [] h apart = tt
Apart-append k v m ((j, u) ∷ fs) h (first, apart) = (
  lookup-append_absent j k v m first (ground (arith, text_beq_iff k j, text_beq_iff j k)),
  Apart-append k v m fs (ground arith) apart,
)

features_back :
    (n : ℕ) (m fs : Features)
    → DistinctKeys fs
    → Apart m fs
    → features_of_rows m (feature_rows n fs) ≡ m ++ fs
unfolding features_of_rows
features_back n m [] distinct apart = sym (append-nil m)
features_back n m ((k, v) ∷ fs) (fresh, distinct) (absent, apart) =
    ap (λ m'. features_of_rows m' (feature_rows n fs)) (insert_absent k v m absent)
    ∙ features_back n (m ++ (k, v) ∷ []) fs distinct (Apart-append k v m fs fresh apart)
    ∙ append_assoc m ((k, v) ∷ []) fs

-- Every key is apart from the empty map.
Apart-empty : (fs : Features) → Apart [] fs
unfolding Dict.lookup
Apart-empty [] = tt
Apart-empty (f ∷ fs) = (refl, Apart-empty fs)

-- The entry of a dependency, as this index gives it back.
unfoldable pub pg_dependency : {S : Semver} → PublishDependency S → Dependency S
pg_dependency d = record (index_dependency d) {
  name = d.name;
  «package» = d.explicit_name_in_toml;
  registry = filter_registry (unwrap_or d.registry []);
}

module _ {S : Semver} (C : Codec S) (on : PublishDependency S → CrateRow) where
  -- The rows of the dependencies of a version, joined with the crates that they are on.
  abbrev pub dependency_rows : ℕ → List (PublishDependency S) → List (DependencyRow × CrateRow)
  dependency_rows n = map (λ d. (dependency_row n d (on d).id, on d))

  -- What is read back as it was written.
  abbrev pub Readable : PublishDependency S → Type 0
  Readable d =
      (C.req_parse (S.req_to_string d.version_req) ≡ ok d.version_req)
      × ((on d).name ≡ d.name)
      × ((on d).registry ≡ unwrap_or d.registry [])

  deps_back :
      (n : ℕ) (ds : List (PublishDependency S))
      → All Readable ds
      → deps_of_rows C (dependency_rows n ds) ≡ ok (map pg_dependency ds)
  unfolding deps_of_rows pg_dependency
  deps_back n [] h = refl
  deps_back n (d ∷ ds) ((parsed, named, registered), h) = ground (
    arith,
    dependency_of_row-dependency_row C n d (on d) parsed named registered,
    deps_back n ds h,
  )

  -- If checksum, version and requirements are read back as they were written, each dependency is
  -- joined with a crate of its name and registry, and no feature stands twice, the rows of a
  -- release are read as the entry that the file index would write for it, but for the
  -- dependencies: those have the name of the original package as the name, the new name as the
  -- package, and no empty registry.
  pub version_of_row-released_row :
      (n id : ℕ) (p : Publish S) (cksum : Bytes)
      → C.hex_decode (C.hex_encode cksum) ≡ ok cksum
      → C.version_parse (S.version_to_string p.vers) ≡ ok p.vers
      → All Readable p.deps
      → DistinctKeys p.features
      → version_of_row C p.name
          (released_row C p cksum n id, feature_rows n p.features, dependency_rows n p.deps)
        ≡ ok (record (release_of_publish p cksum) { deps = map pg_dependency p.deps })
  unfolding version_of_row release_of_publish
  version_of_row-released_row n id p cksum digits parsed readable distinct =
      let deps = deps_back n p.deps readable in
      let features = features_back n [] p.features distinct (Apart-empty p.features) in
      ground (arith, deps, features)
