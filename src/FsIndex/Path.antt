-- ===== src/FsIndex/Path.antt =====
-- `crate_meta_file_rel_path` of crates/freighter-fs-index/src/lib.rs: where the index file of a
-- crate lies.
pub mod Names
use freighter.Base.{
  ℕ, ltb, leb, eqb, ◌≡◌, Bool, true, false, not, ◌&&◌, ◌||◌, Option, none, some, [], ◌∷◌, ◌++◌,
  Text, codes, if◌then◌else◌, length, all,
}

-- `u8::is_ascii_alphabetic` and its like.
abbrev pub is_ascii_lowercase : ℕ → Bool
is_ascii_lowercase c = leb b'a' c && leb c b'z'

abbrev pub is_ascii_uppercase : ℕ → Bool
is_ascii_uppercase c = leb b'A' c && leb c b'Z'

abbrev pub is_ascii_alphabetic : ℕ → Bool
is_ascii_alphabetic c = is_ascii_lowercase c || is_ascii_uppercase c

abbrev pub is_ascii_digit : ℕ → Bool
is_ascii_digit c = leb b'0' c && leb c b'9'

unfoldable pub is_valid_crate_file_name_char : ℕ → Bool
is_valid_crate_file_name_char c =
    is_ascii_alphabetic c && is_ascii_lowercase c
    || (is_ascii_digit c || (eqb c b'-' || eqb c b'_'))

-- The `match` on the length: the folder below `index/`.
unfoldable pub folder : Text → Option Text
folder [] = none
folder (a ∷ []) = some (codes "1")
folder (a ∷ b ∷ []) = some (codes "2")
folder (a ∷ b ∷ c ∷ []) = some (codes "3/" ++ a ∷ [])
folder (a ∷ b ∷ c ∷ d ∷ _) = some (a ∷ b ∷ b'/' ∷ c ∷ d ∷ [])

unfoldable pub crate_meta_file_rel_path : Text → Option Text
crate_meta_file_rel_path lc_crate_name =
    if ltb 64 (length lc_crate_name) || not (all is_valid_crate_file_name_char lc_crate_name)
    then none
    else elim (folder lc_crate_name) [
      | none ↦ none
      | some dir ↦ some (codes "index/" ++ (dir ++ b'/' ∷ lc_crate_name))
    ]
