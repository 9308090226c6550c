-- ===== src/Tests/Types.antt =====
-- Examples of the conversions, of `normalize`, of the body of a publish request and of the metadata
-- that the server corrects.
use freighter.Base.{text_eq, ◌≡◌, refl, none, some, [], ◌∷◌, codes, ok, true, false, arith}
use freighter.Base.Dict
use freighter.Types.Index.{CrateVersion, Dependency, DependencyKind, empty_publish}
use freighter.Types.Convert.{
  publish_of_version, release_of_publish, publish_of_version-release_of_publish,
}
use freighter.Types.Normalize.{normalize}
use freighter.Types.Normalize.Idempotent.{normalize-features, DistinctKeys, merged}
use freighter.Server.Body.{publish_buffer, parse_body, parse-publish_buffer}
use freighter.Server.Index.{correct_entry}
use freighter.Server.Index.Metadata.{AllRefer, feature_names, dep_names, correct_entry-AllRefer}
use freighter.Tests.Files.{numbers, bare_version, bare_publish}
use freighter.Tests.Paths.{serde}

-- A dependency under another name.
abbrev renamed : Dependency numbers
renamed = record {
  name = codes "json";
  req = 1;
  features = codes "std" ∷ codes "alloc" ∷ [];
  optional = true;
  default_features = false;
  target = none;
  kind = DependencyKind.normal;
  registry = none;
  «package» = some (codes "serde_json");
}

-- A version with dependencies and features, one of which refers to a dependency that is not there.
abbrev pub rich : CrateVersion numbers
rich = record (bare_version serde 3 true) {
  deps = renamed ∷ record renamed { name = codes "alloc"; «package» = none } ∷ [];
  features = (codes "default", codes "dep:json" ∷ codes "gone/std" ∷ []) ∷ [];
  features2 = (codes "full", codes "default" ∷ []) ∷ [];
  links = some (codes "z");
}

publish_of_version-release_of_publish_example :
    publish_of_version (release_of_publish (bare_publish serde 1) (7 ∷ []))
    ≡ record (empty_publish numbers) { name = serde; vers = 1; deps = []; features = [] }
publish_of_version-release_of_publish_example =
    publish_of_version-release_of_publish {S = numbers} (bare_publish serde 1) (7 ∷ [])

full-DistinctKeys : DistinctKeys rich.features2
unfolding Dict.lookup
full-DistinctKeys = (refl, tt)

normalize-features_example :
    ((normalize rich).features2 ≡ [])
    × (Dict.lookup (codes "full") (normalize rich).features
        ≡ merged
            (Dict.lookup (codes "full") rich.features2)
            (Dict.lookup (codes "full") rich.features))
normalize-features_example = normalize-features {S = numbers} rich (codes "full") full-DistinctKeys

parse-publish_buffer_example : parse_body (publish_buffer serde (9 ∷ [])) ≡ ok (serde, 9 ∷ [], [])
parse-publish_buffer_example =
    parse-publish_buffer serde (9 ∷ []) (omega arith) (omega arith) (omega arith)

correct_entry-AllRefer_example :
    AllRefer (feature_names (correct_entry rich)) (dep_names rich) (correct_entry rich).features
    × AllRefer (feature_names (correct_entry rich)) (dep_names rich) (correct_entry rich).features2
correct_entry-AllRefer_example = correct_entry-AllRefer {S = numbers} rich
