-- ===== src/Base/Dict.antt =====
-- `HashMap` as an association list. The order of the entries stands for the unspecified order in
-- which the program iterates over a map.
use mathlib.Core.Path.{◌≡◌, refl}
use mathlib.Core.Bool.{Bool}
use mathlib.Core.Option.{Option, none, some}
use mathlib.Core.List.{List, [], ◌∷◌, map}
use native.Mathlib.Omega.{arith}
use freighter.Base.Tests.{if◌then◌else◌, Eq, ◌==◌, ==_iff, is_some}

abbrev pub Dict {ℓ} : Type ℓ → Type ℓ → Type ℓ
Dict K V = List (K × V)

module _ {ℓ} {K V : Type ℓ} where
  abbrev pub keys : Dict K V → List K
  keys = map (λ e. e.0)

  abbrev pub values : Dict K V → List V
  values = map (λ e. e.1)

module _ {ℓ} {K V : Type ℓ} ⦃eq : Eq K⦄ where
  -- `HashMap::get`
  unfoldable pub lookup : K → Dict K V → Option V
  lookup key [] = none
  lookup key ((k, v) ∷ rest) = if k == key then some v else lookup key rest

  -- `HashMap::insert`
  unfoldable pub insert : K → V → Dict K V → Dict K V
  insert key new [] = (key, new) ∷ []
  insert key new ((k, v) ∷ m) =
      let rest = insert key new m in if k == key then (k, new) ∷ m else (k, v) ∷ rest

  -- `HashMap::remove`
  unfoldable pub remove : K → Dict K V → Dict K V
  remove key [] = []
  remove key ((k, v) ∷ m) = let rest = remove key m in if k == key then rest else (k, v) ∷ rest

  abbrev pub contains_key : K → Dict K V → Bool
  contains_key k m = is_some (lookup k m)

  pub lookup-insert :
      (key other : K) (new : V) (m : Dict K V)
      → lookup other (insert key new m) ≡ (if key == other then some new else lookup other m)
  unfolding lookup insert
  lookup-insert key other new [] = refl
  lookup-insert key other new ((k, v) ∷ m) =
      ground (arith, lookup-insert key other new m, ==_iff key other, ==_iff k key, ==_iff k other)

  pub lookup-remove :
      (k j : K) (m : Dict K V) → lookup j (remove k m) ≡ (if k == j then none else lookup j m)
  unfolding lookup remove
  lookup-remove k j [] = ground arith
  lookup-remove k j ((i, w) ∷ m) =
      ground (arith, ==_iff k j, ==_iff i k, ==_iff i j, lookup-remove k j m)

pub ruleset dict_laws = (lookup-insert, lookup-remove)
