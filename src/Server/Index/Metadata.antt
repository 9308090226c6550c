-- ===== src/Server/Index/Metadata.antt =====
-- `ensure_correct_metadata` leaves no feature that refers to something that does not exist.
use freighter.Base.{
  ◌≡◌, refl, ap, true, ◌||◌, List, [], ◌∷◌, ◌++◌, map, Text, text_eq, if◌then◌else◌, contains,
  contains-append, ◌==◌, ==_iff, All, arith, Bool-cases, inl, inr,
}
use freighter.Base.Dict
use freighter.Types.Index.{Semver, CrateVersion, Features}
use freighter.Server.Index.{
  action_target, retain_actions, retain_features, add_missing, correct_entry,
}

-- An action names a feature, or the dependency behind it exists.
abbrev pub Refers : List Text → List Text → Text → Type 0
Refers features deps action =
    (contains features action || contains deps (action_target action)) ≡ true

abbrev pub AllRefer : List Text → List Text → Features → Type 0
AllRefer features deps m = All (λ e. All (Refers features deps) e.1) m

retain_actions-Refers :
    (features deps actions : List Text)
    → All (Refers features deps) (retain_actions features deps actions).0
unfolding retain_actions
retain_actions-Refers features deps [] = tt
retain_actions-Refers features deps (a ∷ actions) =
    ground (arith, retain_actions-Refers features deps actions)

retain_features-AllRefer :
    (features deps : List Text) (m : Features)
    → AllRefer features deps (retain_features features deps m).0
unfolding retain_features
retain_features-AllRefer features deps [] = tt
retain_features-AllRefer features deps ((k, actions) ∷ m) =
    (retain_actions-Refers features deps actions, retain_features-AllRefer features deps m)

keys-retain :
    (features deps : List Text) (m : Features)
    → Dict.keys (retain_features features deps m).0 ≡ Dict.keys m
unfolding retain_features
keys-retain features deps [] = refl
keys-retain features deps ((k, actions) ∷ m) = ap (◌∷◌ k) (keys-retain features deps m)

contains-keys-insert :
    (f x : Text) (v : List Text) (m : Features)
    → contains (Dict.keys (Dict.insert f v m)) x ≡ (f == x || contains (Dict.keys m) x)
unfolding Dict.insert
contains-keys-insert f x v [] = refl
contains-keys-insert f x v ((j, w) ∷ m) =
    ground (arith, ==_iff j f, ==_iff f x, ==_iff j x, contains-keys-insert f x v m)

AllRefer-insert :
    (features deps : List Text) (f : Text) (m : Features)
    → AllRefer features deps m
    → AllRefer features deps (Dict.insert f [] m)
unfolding Dict.insert
AllRefer-insert features deps f [] h = (tt, tt)
AllRefer-insert features deps f ((j, w) ∷ m) h = elim (Bool-cases (j == f)) [
  | inl here ↦ rw here (tt, h.1)
  | inr other ↦ rw other (h.0, AllRefer-insert features deps f m h.1)
]

-- One step of `add_missing`.
abbrev with_feature : Text → Features → Features
with_feature f m = if Dict.contains_key f m then m else Dict.insert f [] m

AllRefer-add_missing :
    (features deps fs : List Text) (m : Features)
    → AllRefer features deps m
    → AllRefer features deps (add_missing fs m)
unfolding add_missing
AllRefer-add_missing features deps [] m h = h
AllRefer-add_missing features deps (f ∷ fs) m h = elim (Bool-cases (Dict.contains_key f m)) [
  | inl there ↦ rw there (AllRefer-add_missing features deps fs m h)
  | inr absent ↦ rw absent (
      AllRefer-add_missing features deps fs (Dict.insert f [] m)
        (AllRefer-insert features deps f m h))
]

-- Adding features loses none.
keys-add_missing :
    (x : Text) (fs : List Text) (m : Features)
    → contains (Dict.keys m) x ≡ true
    → contains (Dict.keys (add_missing fs m)) x ≡ true
unfolding add_missing
keys-add_missing x [] m h = h
keys-add_missing x (f ∷ fs) m h = elim (Bool-cases (Dict.contains_key f m)) [
  | inl there ↦ rw there (keys-add_missing x fs m h)
  | inr absent ↦
      rw absent
        (keys-add_missing x fs (Dict.insert f [] m) (ground (arith, contains-keys-insert f x [] m)))
]

All-Refers_mono :
    (features features' deps actions : List Text)
    → ((x : Text) → contains features x ≡ true → contains features' x ≡ true)
    → All (Refers features deps) actions
    → All (Refers features' deps) actions
All-Refers_mono features features' deps [] more h = tt
All-Refers_mono features features' deps (a ∷ actions) more h =
    (ground (arith, h.0, more a), All-Refers_mono features features' deps actions more h.1)

AllRefer-mono :
    (features features' deps : List Text) (m : Features)
    → ((x : Text) → contains features x ≡ true → contains features' x ≡ true)
    → AllRefer features deps m
    → AllRefer features' deps m
AllRefer-mono features features' deps [] more h = tt
AllRefer-mono features features' deps ((k, actions) ∷ m) more h = (
  All-Refers_mono features features' deps actions more h.0,
  AllRefer-mono features features' deps m more h.1,
)

-- The names of all features, and of all dependencies, of an entry.
abbrev pub feature_names : {S : Semver} → CrateVersion S → List Text
feature_names e = Dict.keys e.features ++ Dict.keys e.features2

abbrev pub dep_names : {S : Semver} → CrateVersion S → List Text
dep_names e = map (λ d. d.name) e.deps

module _ {S : Semver} (e : CrateVersion S) where
  features_kept :
      (x : Text)
      → contains (feature_names e) x ≡ true
      → contains (feature_names (correct_entry e)) x ≡ true
  unfolding correct_entry
  features_kept x h =
      let first = retain_features (feature_names e) (dep_names e) e.features in
      let second = retain_features (feature_names e) (dep_names e) e.features2 in
      ground (
        arith,
        contains-append (Dict.keys e.features) (Dict.keys e.features2) x,
        contains-append (Dict.keys (add_missing (first.1 ++ second.1) first.0)) (Dict.keys second.0)
            x,
        keys-add_missing x (first.1 ++ second.1) first.0,
        keys-retain (feature_names e) (dep_names e) e.features,
        keys-retain (feature_names e) (dep_names e) e.features2,
      )

  -- In a corrected entry every action of every feature is the name of a feature of the entry, or
  -- names a dependency of the entry (behind `dep:`, before `?` or `/`).
  pub correct_entry-AllRefer :
      AllRefer (feature_names (correct_entry e)) (dep_names e) (correct_entry e).features
      × AllRefer (feature_names (correct_entry e)) (dep_names e) (correct_entry e).features2
  unfolding correct_entry
  correct_entry-AllRefer =
      let features = feature_names e in
      let deps = dep_names e in
      let first = retain_features features deps e.features in
      let second = retain_features features deps e.features2 in
      (
        AllRefer-mono features (feature_names (correct_entry e)) deps _ features_kept (
            AllRefer-add_missing features deps (first.1 ++ second.1) first.0
              (retain_features-AllRefer features deps e.features)),
        AllRefer-mono features (feature_names (correct_entry e)) deps second.0 features_kept
            (retain_features-AllRefer features deps e.features2),
      )

retain_actions-All :
    (features deps actions : List Text)
    → All (Refers features deps) actions
    → retain_actions features deps actions ≡ (actions, [])
unfolding retain_actions
retain_actions-All features deps [] h = refl
retain_actions-All features deps (a ∷ actions) h =
    ground (arith, h.0, retain_actions-All features deps actions h.1)

retain_features_all :
    (features deps : List Text) (m : Features)
    → AllRefer features deps m
    → retain_features features deps m ≡ (m, [])
unfolding retain_features
retain_features_all features deps [] h = refl
retain_features_all features deps ((k, actions) ∷ m) h =
    ground
      (arith, retain_actions-All features deps actions h.0, retain_features_all features deps m h.1)

-- An entry that was corrected is left as it is by another correction.
correct_entry_idem :
    {S : Semver} (e : CrateVersion S) → correct_entry (correct_entry e) ≡ correct_entry e
unfolding correct_entry add_missing
correct_entry_idem e =
    let refer = correct_entry-AllRefer e in
    let c = correct_entry e in
    rw (
      retain_features_all (feature_names c) (dep_names e) c.features refer.0,
      retain_features_all (feature_names c) (dep_names e) c.features2 refer.1,
    )
