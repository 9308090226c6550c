-- ===== src/Types/Normalize.antt =====
-- `CrateVersion::normalize` of crates/freighter-api-types/src/index/response.rs.
pub mod Idempotent
use freighter.Base.{
  text_eq, ◌≡◌, refl, ap, ap₂, ◌∙◌, Bool, true, false, Option, none, some, List, [], ◌∷◌, map, Text,
  arith, if◌then◌else◌, All,
}
use freighter.Base.Dict
use freighter.Base.Order.{text_cmp, option_cmp, then_order, sort, sort_idem, IsFlipped, flip-then}
use freighter.Types.Index.{
  Semver, Dependency, CrateVersion, DependencyKind, Features, normal, dev, build,
}
use Prim.Native.Nat.{Ordering}

-- The derived `Ord` of `DependencyKind`.
unfoldable pub kind_cmp : DependencyKind → DependencyKind → Ordering
kind_cmp normal normal = Ordering.eq
kind_cmp normal _ = Ordering.lt
kind_cmp dev normal = Ordering.gt
kind_cmp dev dev = Ordering.eq
kind_cmp dev build = Ordering.lt
kind_cmp build build = Ordering.eq
kind_cmp build _ = Ordering.gt

kind_cmp-IsFlipped : IsFlipped kind_cmp
unfolding kind_cmp
kind_cmp-IsFlipped a b = ground arith

-- The loop over the features that were taken out of `features2`.
unfoldable pub merge_features : Features → Features → Features
merge_features [] features = features
merge_features ((k, v) ∷ features_2) features =
    merge_features features_2 (Dict.insert k (sort text_cmp v) features)

module _ {S : Semver} where
  -- The order of the cached keys: registry, name, package, requirement, kind, target.
  unfoldable pub dependency_cmp : Dependency S → Dependency S → Ordering
  dependency_cmp x y = then_order (option_cmp text_cmp x.registry y.registry) (
      then_order (text_cmp x.name y.name) (
        then_order (option_cmp text_cmp x.«package» y.«package») (
          then_order (text_cmp (S.req_to_string x.req) (S.req_to_string y.req))
            (then_order (kind_cmp x.kind y.kind) (option_cmp text_cmp x.target y.target)))))

  unfoldable pub sort_dependency_features : Dependency S → Dependency S
  sort_dependency_features d = record d { features = sort text_cmp d.features }

  unfoldable pub normalize_dependencies : CrateVersion S → CrateVersion S
  unfolding sort_dependency_features
  normalize_dependencies v = record v {
    deps = sort dependency_cmp (map sort_dependency_features v.deps);
  }

  unfoldable pub normalize_features : CrateVersion S → CrateVersion S
  normalize_features v = record v {
    features = merge_features v.features2 v.features;
    features2 = [];
  }

  unfoldable pub normalize : CrateVersion S → CrateVersion S
  normalize v = normalize_dependencies (normalize_features v)
