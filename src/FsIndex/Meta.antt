-- ===== src/FsIndex/Meta.antt =====
-- `serialize_data` and `deserialize_data` of crates/freighter-fs-index/src/file_locks.rs: an index
-- file is one line of JSON for each version, and one for the last publish request.
pub mod RoundTrip
use freighter.Base.{
  ℕ, eqb, ◌≡◌, Bool, true, false, not, Option, none, some, List, [], ◌∷◌, ◌++◌, Bytes, codes,
  Result, ok, err, ◌>>=◌, map_err, if◌then◌else◌, length, all, retain,
}
use freighter.Types.Error.{AnyError, IndexError, service_error}
use freighter.Types.Index.{Semver, CrateVersion, Publish}

module _ (S : Semver) where
  -- `serde_json` at the two types of a line.
  pub record Json : Type 0 where
    pub version_to_json : CrateVersion S → Result AnyError Bytes
    pub version_of_json : Bytes → Option (CrateVersion S)
    pub publish_to_json : Publish S → Result AnyError Bytes
    pub publish_of_json : Bytes → Option (Publish S)

abbrev pub is_newline : ℕ → Bool
is_newline c = eqb c 10

-- `slice::split` at newlines: the first line, and the others.
unfoldable pub split_lines : Bytes → Bytes × List Bytes
split_lines [] = ([], [])
split_lines (c ∷ t) =
    let (line, lines) = split_lines t in
    if is_newline c then ([], line ∷ lines) else (c ∷ line, lines)

abbrev pub is_filled : Bytes → Bool
is_filled [] = false
is_filled (c ∷ t) = true

-- `split` behind the `filter` that drops the empty lines.
unfoldable pub lines : Bytes → List Bytes
unfolding split_lines
lines bytes = let (line, others) = split_lines bytes in retain is_filled (line ∷ others)

module _ {S : Semver} (J : Json S) where
  -- The loop of `deserialize_data` over its two variables.
  unfoldable pub read_lines :
      List (CrateVersion S)
      → Option (Publish S)
      → List Bytes
      → Result IndexError (List (CrateVersion S) × Option (Publish S))
  read_lines versions publish [] = ok (versions, publish)
  read_lines versions publish (line ∷ rest) = elim (J.version_of_json line) [
    | some version ↦ read_lines (versions ++ version ∷ []) publish rest
    | none ↦ elim (J.publish_of_json line) [
      | some p ↦ read_lines versions (some p) rest
      | none ↦ err (service_error (codes "invalid index file format" ∷ []))
    ]
  ]

  unfoldable pub deserialize_data :
      Bytes → Result IndexError (List (CrateVersion S) × Option (Publish S))
  deserialize_data json_lines = read_lines [] none (lines json_lines)

  -- The loop of `serialize_data` over the versions.
  unfoldable pub write_versions : Bytes → List (CrateVersion S) → Result IndexError Bytes
  write_versions json_lines [] = ok json_lines
  write_versions json_lines (v ∷ versions) = do
    line ← map_err service_error (J.version_to_json v)
    write_versions (json_lines ++ (line ++ 10 ∷ [])) versions

  unfoldable pub write_publish : Bytes → Option (Publish S) → Result IndexError Bytes
  write_publish json_lines none = ok json_lines
  write_publish json_lines (some publish) = do
    line ← map_err service_error (J.publish_to_json publish)
    ok (json_lines ++ (line ++ 10 ∷ []))

  unfoldable pub serialize_data :
      List (CrateVersion S) → Option (Publish S) → Result IndexError Bytes
  serialize_data versions publish = do
    json_lines ← write_versions [] versions
    write_publish json_lines publish
