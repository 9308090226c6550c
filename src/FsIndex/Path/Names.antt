-- ===== src/FsIndex/Path/Names.antt =====
-- Which names have a file, and that no two crates share one.
use freighter.Base.{
  ℕ, All, ◌⊎◌, eqb, ◌≤◌, ◌≡◌, refl, ◌↔◌, true, not, some, [], ◌∷◌, ◌++◌, Text, codes, length, all,
  arith, rsplit_once, rsplit_once-append, inl, inr, Option-cases,
}
use mathlib.Core.Path.{subst}
use freighter.FsIndex.Path.{is_valid_crate_file_name_char, folder, crate_meta_file_rel_path}

-- A lower-case letter, a digit, a dash or an underscore, by their codes in ASCII.
abbrev pub IsNameChar : ℕ → Type 0
IsNameChar c = ((97 ≤ c) × (c ≤ 122)) ⊎ ((48 ≤ c) × (c ≤ 57)) ⊎ (c ≡ 45) ⊎ (c ≡ 95)

-- The length and the characters that are allowed in a name.
abbrev pub IsName : Text → Type 0
IsName n = (1 ≤ length n) × (length n ≤ 64) × All IsNameChar n

char_iff : (c : ℕ) → (is_valid_crate_file_name_char c ≡ true) ↔ IsNameChar c
unfolding is_valid_crate_file_name_char
char_iff c = (λ h. ground arith, λ h. ground arith)

chars_iff : (n : Text) → (all is_valid_crate_file_name_char n ≡ true) ↔ All IsNameChar n
chars_iff [] = (λ h. tt, λ h. refl)
chars_iff (c ∷ n) = (
  λ h. ((char_iff c).0 (ground arith), (chars_iff n).0 (ground arith)),
  λ (h, hs). ground (arith, (char_iff c).1 h, (chars_iff n).1 hs),
)

folder_total : (n : Text) → 1 ≤ length n → (d : Text) × (folder n ≡ some d)
unfolding folder
folder_total [] h = absurd (omega arith)
folder_total (a ∷ []) h = (_, refl)
folder_total (a ∷ b ∷ []) h = (_, refl)
folder_total (a ∷ b ∷ c ∷ []) h = (_, refl)
folder_total (a ∷ b ∷ c ∷ d ∷ n) h = (_, refl)

folder-nil : (n : Text) (d : Text) → folder n ≡ some d → 1 ≤ length n
unfolding folder
folder-nil [] d h = cc
folder-nil (a ∷ n) d h = omega arith

pub path_parts :
    (n p : Text)
    → crate_meta_file_rel_path n ≡ some p
    → (d : Text) × (folder n ≡ some d)
      × (length n ≤ 64)
      × (all is_valid_crate_file_name_char n ≡ true)
      × (codes "index/" ++ (d ++ b'/' ∷ n) ≡ p)
unfolding crate_meta_file_rel_path
path_parts n p h = elim (Option-cases (folder n)) [
  | inl e ↦ absurd (ground arith)
  | inr (d, e) ↦ (d, e, ground arith, ground arith, ground arith)
]

-- A name has an index path exactly if it has 1 to 64 characters, each of them a lower-case letter
-- (97 to 122), a digit (48 to 57), `-` (45) or `_` (95).
pub path_exists_iff : (n : Text) → ((p : Text) × (crate_meta_file_rel_path n ≡ some p)) ↔ IsName n
unfolding crate_meta_file_rel_path
path_exists_iff n = (
  λ (p, h).
      let (d, found, short, chars, _) = path_parts n p h in
      (folder-nil n d found, short, (chars_iff n).0 chars),
  λ (filled, short, chars).
      let (d, e) = folder_total n filled in
      (codes "index/" ++ (d ++ b'/' ∷ n), ground (arith, (chars_iff n).1 chars)),
)

name_no_slash :
    (n : Text) → all is_valid_crate_file_name_char n ≡ true → all (λ x. not (eqb x b'/')) n ≡ true
unfolding is_valid_crate_file_name_char
name_no_slash [] h = refl
name_no_slash (c ∷ n) h = ground (arith, name_no_slash n)

-- What stands behind the last slash of the index path of a name is the name.
rsplit-path :
    (n p : Text)
    → crate_meta_file_rel_path n ≡ some p
    → (dir : Text) × (rsplit_once b'/' p ≡ some (dir, n))
rsplit-path n p h =
    let (d, _, _, chars, e) = path_parts n p h in
    (
      codes "index/" ++ d,
      subst (λ q. rsplit_once b'/' q ≡ some (codes "index/" ++ d, n)) e
          (rsplit_once-append b'/' (codes "index/" ++ d) n (name_no_slash n chars)),
    )

-- Two names with the same index path are the same name.
pub path-injective :
    (m n p : Text)
    → crate_meta_file_rel_path m ≡ some p
    → crate_meta_file_rel_path n ≡ some p
    → m ≡ n
path-injective m n p h k =
    let (d, e) = rsplit-path m p h in let (d', e') = rsplit-path n p k in ground arith
