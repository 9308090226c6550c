-- ===== src/Base/Strings.antt =====
-- Text as its list of bytes (Rust's `str`; every literal of the program is ASCII).
use freighter.Base.Lists.{all}
use mathlib.Core.Bool.{not, ◌||◌, Bool, true, false, ◌&&◌}
use Prim.Native.Nat.{ℕ, ◌+◌}
use Prim.Native.Char.{code}
use Prim.Native.String.{String}
use mathlib.Core.Path.{◌≡◌, refl}
use mathlib.Core.Logic.{◌↔◌}
use mathlib.Core.Option.{Option, none, some}
use mathlib.Core.List.{List, [], ◌∷◌, ◌++◌, map}
use native.Mathlib.Omega.{arith}
use freighter.Base.Tests.{leb, eqb, if◌then◌else◌, Eq}

abbrev pub Text : Type 0
Text = List ℕ

abbrev pub Bytes : Type 0
Bytes = List ℕ

-- The bytes of an ASCII literal.
abbrev pub codes : String → Text
codes String.[] = []
codes (String.◌∷◌ c s) = code c ∷ codes s

unfoldable pub text_beq : Text → Text → Bool
text_beq [] [] = true
text_beq [] (b ∷ bs) = false
text_beq (a ∷ as') [] = false
text_beq (a ∷ as') (b ∷ bs) = eqb a b && text_beq as' bs

text_beq_sound : (s t : Text) → text_beq s t ≡ true → s ≡ t
unfolding text_beq
text_beq_sound [] [] h = refl
text_beq_sound [] (b ∷ bs) h = ground arith
text_beq_sound (a ∷ s) [] h = ground arith
text_beq_sound (a ∷ s) (b ∷ t) h = ground (arith, text_beq_sound s t)

text_beq_refl : (s : Text) → text_beq s s ≡ true
unfolding text_beq
text_beq_refl [] = refl
text_beq_refl (a ∷ s) = ground (arith, text_beq_refl s)

pub text_beq_iff : (s t : Text) → (text_beq s t ≡ true) ↔ (s ≡ t)
text_beq_iff s t = (text_beq_sound s t, λ e. rw e (text_beq_refl t))

instance abbrev pub text_eq : Eq Text
text_eq = record { beq = text_beq; beq_law = text_beq_iff }

-- `u8::to_ascii_lowercase`, `str::to_ascii_lowercase`.
unfoldable pub to_lower : ℕ → ℕ
to_lower c = if leb b'A' c && leb c b'Z' then c + 32 else c

abbrev pub to_ascii_lowercase : Text → Text
to_ascii_lowercase = map to_lower

-- `str::strip_prefix`.
unfoldable pub strip_prefix : Text → Text → Option Text
strip_prefix [] t = some t
strip_prefix (p ∷ ps) [] = none
strip_prefix (p ∷ ps) (c ∷ t) = let rest = strip_prefix ps t in if eqb p c then rest else none

pub strip_prefix-append : (p t : Text) → strip_prefix p (p ++ t) ≡ some t
unfolding strip_prefix
strip_prefix-append [] t = refl
strip_prefix-append (c ∷ p) t = ground (arith, strip_prefix-append p t)

-- `str::contains` with a text pattern.
unfoldable pub has_infix : Text → Text → Bool
unfolding strip_prefix
has_infix q [] = elim q [ [] ↦ true | _ ∷ _ ↦ false ]
has_infix q (c ∷ t) = elim (strip_prefix q (c ∷ t)) [ none ↦ has_infix q t | some _ ↦ true ]

-- `str::ends_with` with a text pattern.
unfoldable pub ends_with : Text → Text → Bool
ends_with p [] = text_beq p []
ends_with p (c ∷ t) = text_beq p (c ∷ t) || ends_with p t

-- `str::trim_end_matches` with one character.
unfoldable pub trim_end_matches : ℕ → Text → Text
trim_end_matches c [] = []
trim_end_matches c (x ∷ t) = elim (trim_end_matches c t) [
  | [] ↦ if eqb x c then [] else x ∷ []
  | y ∷ rest ↦ x ∷ y ∷ rest
]

-- `str::split_once` at a byte.
unfoldable pub split_once : ℕ → Text → Option (Text × Text)
split_once c [] = none
split_once c (x ∷ t) =
    let rest = split_once c t in
    if eqb x c
    then some ([], t)
    else elim rest [ none ↦ none | some (before, behind) ↦ some (x ∷ before, behind) ]

-- `str::rsplit_once`: what stands before and behind the last occurrence of a byte.
unfoldable pub rsplit_once : ℕ → Text → Option (Text × Text)
rsplit_once c [] = none
rsplit_once c (x ∷ t) =
    let rest = rsplit_once c t in
    elim rest [
      | some (before, after) ↦ some (x ∷ before, after)
      | none ↦ if eqb x c then some ([], t) else none
    ]

rsplit_once_absent : (c : ℕ) (t : Text) → all (λ x. not (eqb x c)) t ≡ true → rsplit_once c t ≡ none
unfolding rsplit_once
rsplit_once_absent c [] h = refl
rsplit_once_absent c (x ∷ t) h = ground (arith, rsplit_once_absent c t)

pub rsplit_once-append :
    (c : ℕ) (s t : Text)
    → all (λ x. not (eqb x c)) t ≡ true
    → rsplit_once c (s ++ c ∷ t) ≡ some (s, t)
unfolding rsplit_once
rsplit_once-append c [] t h = ground (arith, rsplit_once_absent c t)
rsplit_once-append c (x ∷ s) t h = ground (arith, rsplit_once-append c s t)
