-- ===== src/Client/Template.antt =====
-- `sanitize_dl` and `apply_markers` of crates/freighter-client/src/lib.rs: the template of the
-- download URL.
use freighter.Base.{
  ℕ, zero, suc, ◌-◌, Option, none, some, List, [], ◌∷◌, ◌++◌, any, length, Text, codes,
  strip_prefix, has_infix, ends_with, to_ascii_lowercase, if◌then◌else◌,
}
use freighter.Server.Client.{crate_prefix}

-- `String::pop`
unfoldable pub pop : Text → Text
pop [] = []
pop (c ∷ t) = elim t [ [] ↦ [] | _ ∷ _ ↦ c ∷ pop t ]

-- `str::replace`, with the characters of a match that are still to be passed over.
unfoldable pub replace_from : ℕ → Text → Text → Text → Text
replace_from skip from to [] = []
replace_from (suc skip) from to (c ∷ t) = replace_from skip from to t
replace_from zero from to (c ∷ t) =
    let passed = replace_from (length from - 1) from to t in
    let kept = replace_from zero from to t in
    elim (strip_prefix from (c ∷ t)) [ none ↦ c ∷ kept | some _ ↦ to ++ passed ]

abbrev pub replace_all : Text → Text → Text → Text
replace_all = replace_from zero

abbrev pub markers : List Text
markers =
    codes "{crate}"
    ∷ codes "{version}"
    ∷ codes "{prefix}"
    ∷ codes "{lowerprefix}"
    ∷ codes "{sha256-checksum}"
    ∷ []

-- Where no marker stands, the default template is appended.
unfoldable pub sanitize_dl : Text → Text
sanitize_dl dl =
    let popped = if ends_with (codes "/") dl then pop dl else dl in
    if any (λ marker. has_infix marker popped) markers
    then popped
    else popped ++ codes "/{crate}/{version}/download"

-- `none` for the empty name, which makes `crate_prefix` panic.
unfoldable pub apply_markers : Text → Text → Text → Text → Option Text
apply_markers url name version shasum = elim (crate_prefix name) [
  | none ↦ none
  | some prefix ↦ some (
      replace_all (codes "{sha256-checksum}") shasum (
        replace_all (codes "{lowerprefix}") (to_ascii_lowercase prefix) (
          replace_all (codes "{prefix}") prefix
            (replace_all (codes "{version}") version (replace_all (codes "{crate}") name url)))))
]
