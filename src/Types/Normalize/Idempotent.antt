-- ===== src/Types/Normalize/Idempotent.antt =====
-- What `CrateVersion::normalize` promises: a normal form, with the same dependencies and features.
use freighter.Base.{
  ◌≡◌, refl, ap₂, sym, Option, none, some, List, [], ◌∷◌, map, Text, text_eq, arith, All, ==_iff,
}
use freighter.Base.Dict
use freighter.Base.Order.{
  text_cmp, text_cmp-IsFlipped, option_cmp-IsFlipped, then_order, sort, sort-perm, sort-IsSorted,
  sort-All, sort_idem, IsFlipped, IsSorted, flip-then, flip_order,
}
use freighter.Types.Index.{Semver, Dependency, CrateVersion, Features}
use freighter.Types.Normalize.{
  kind_cmp-IsFlipped, dependency_cmp, sort_dependency_features, normalize_dependencies,
  merge_features, normalize_features, normalize,
}
use mathlib.Core.List.{Perm}
use Prim.Native.Nat.{Ordering}

then-IsFlipped :
    (o p : Ordering) {o' p' : Ordering}
    → o' ≡ flip_order o
    → p' ≡ flip_order p
    → then_order o' p' ≡ flip_order (then_order o p)
then-IsFlipped o p h k = rw (h, k) (sym (flip-then o p))

module _ {S : Semver} where
  dependency_cmp-IsFlipped : IsFlipped (dependency_cmp {S = S})
  unfolding dependency_cmp
  dependency_cmp-IsFlipped a b =
      then-IsFlipped _ _ (option_cmp-IsFlipped text_cmp text_cmp-IsFlipped a.registry b.registry) (
        then-IsFlipped _ _ (text_cmp-IsFlipped a.name b.name) (
          then-IsFlipped _ _
            (option_cmp-IsFlipped text_cmp text_cmp-IsFlipped a.«package» b.«package»)
            (then-IsFlipped _ _ (text_cmp-IsFlipped (S.req_to_string a.req) (S.req_to_string b.req))
              (then-IsFlipped _ _ (kind_cmp-IsFlipped a.kind b.kind)
                (option_cmp-IsFlipped text_cmp text_cmp-IsFlipped a.target b.target)))))

  -- The features of a dependency are in order.
  abbrev HasSortedFeatures : Dependency S → Type 0
  HasSortedFeatures d = sort text_cmp d.features ≡ d.features

  sorted_features :
      (ds : List (Dependency S)) → All HasSortedFeatures (map sort_dependency_features ds)
  unfolding sort_dependency_features
  sorted_features [] = tt
  sorted_features (d ∷ ds) = (sort_idem text_cmp text_cmp-IsFlipped d.features, sorted_features ds)

  map_sorted :
      (ds : List (Dependency S)) → All HasSortedFeatures ds → map sort_dependency_features ds ≡ ds
  unfolding sort_dependency_features
  map_sorted [] h = refl
  map_sorted (d ∷ ds) h = ap₂ ◌∷◌ (λ i. record d { features = h.0 i }) (map_sorted ds h.1)

  dependencies_idem :
      (ds : List (Dependency S))
      → sort dependency_cmp
          (map sort_dependency_features (sort dependency_cmp (map sort_dependency_features ds)))
        ≡ sort dependency_cmp (map sort_dependency_features ds)
  dependencies_idem ds =
      let once = map sort_dependency_features ds in
      rw
        (map_sorted (sort dependency_cmp once)
          (sort-All dependency_cmp HasSortedFeatures once (sorted_features ds)))
        (sort_idem dependency_cmp dependency_cmp-IsFlipped once)

  -- Normalizing a normalized entry changes nothing.
  normalize_idem : (v : CrateVersion S) → normalize (normalize v) ≡ normalize v
  unfolding normalize normalize_dependencies normalize_features merge_features
  normalize_idem v = λ i. record (normalize v) { deps = dependencies_idem v.deps i }

  -- The dependencies of a normalized entry are sorted by their keys, and are a permutation of
  -- those of the entry, each with its features sorted.
  normalize-deps :
      (v : CrateVersion S)
      → IsSorted dependency_cmp (normalize v).deps
        × Perm (normalize v).deps (map sort_dependency_features v.deps)
  unfolding normalize normalize_dependencies normalize_features
  normalize-deps v =
      (sort-IsSorted dependency_cmp dependency_cmp-IsFlipped _, sort-perm dependency_cmp _)

-- No key stands twice.
abbrev pub DistinctKeys : Features → Type 0
DistinctKeys [] = Unit
DistinctKeys ((k, v) ∷ m) = (Dict.lookup k m ≡ none) × DistinctKeys m

-- What the merged map holds under a key.
abbrev pub merged : Option (List Text) → Option (List Text) → Option (List Text)
merged none old = old
merged (some v) old = some (sort text_cmp v)

lookup-merge_features :
    (k : Text) (features_2 features : Features)
    → DistinctKeys features_2
    → Dict.lookup k (merge_features features_2 features)
      ≡ merged (Dict.lookup k features_2) (Dict.lookup k features)
unfolding merge_features Dict.lookup
lookup-merge_features k [] features h = refl
lookup-merge_features k ((j, v) ∷ m) features h = ground (
  arith,
  ==_iff j k,
  h.0,
  lookup-merge_features k m (Dict.insert j (sort text_cmp v) features) h.1,
  Dict.lookup-insert j k (sort text_cmp v) features,
)

-- If no key stands twice in `features2`, a normalized entry has no `features2`, and its `features`
-- hold under each key of `features2` the sorted list that stood there, in place of what `features`
-- had under it, and under each other key what `features` had.
pub normalize-features :
    {S : Semver} (v : CrateVersion S) (k : Text)
    → DistinctKeys v.features2
    → ((normalize v).features2 ≡ [])
      × (Dict.lookup k (normalize v).features
          ≡ merged (Dict.lookup k v.features2) (Dict.lookup k v.features))
unfolding normalize normalize_dependencies normalize_features
normalize-features v k h = (refl, lookup-merge_features k v.features2 v.features h)
