-- ===== src/Auth/OwnerSet.antt =====
-- The owners of a crate: `BTreeSet<Box<str>>` of crates/freighter-auth/src/fs_backend.rs, as the
-- list of its elements in order.
use Prim.Native.Nat.{Ordering}
use freighter.Base.{
  All, Bool-cases, inl, inr, ◌≡◌, false, List, [], ◌∷◌, Text, text_eq, if◌then◌else◌, ◌==◌,
  contains, ◌≤◌, arith, length, ◌||◌, ◌+◌, ==_iff, refl,
}
use freighter.Base.Order.{text_cmp, is_less, text_cmp-IsFlipped}

-- `BTreeSet::insert`
unfoldable pub insert : Text → List Text → List Text
insert x [] = x ∷ []
insert x (y ∷ s) =
    let rest = insert x s in
    if y == x then y ∷ s else if is_less (text_cmp x y) then x ∷ y ∷ s else y ∷ rest

-- `BTreeSet::remove`
unfoldable pub remove : Text → List Text → List Text
remove x [] = []
remove x (y ∷ s) = let rest = remove x s in if y == x then s else y ∷ rest

-- `extend` with the elements of a list.
unfoldable pub extend : List Text → List Text → List Text
extend s [] = s
extend s (x ∷ xs) = extend (insert x s) xs

-- Every element is less than those behind it.
abbrev IsBefore : Text → Text → Type 0
IsBefore x y = text_cmp x y ≡ Ordering.lt

abbrev pub IsOrdered : List Text → Type 0
IsOrdered [] = Unit
IsOrdered (x ∷ s) = All (IsBefore x) s × IsOrdered s

cmp_trans : (a b c : Text) → IsBefore a b → IsBefore b c → IsBefore a c
unfolding text_cmp
cmp_trans [] b [] h k = ground arith
cmp_trans [] b (z ∷ c) h k = refl
cmp_trans (x ∷ a) [] c h k = cc
cmp_trans (x ∷ a) (y ∷ b) [] h k = cc
cmp_trans (x ∷ a) (y ∷ b) (z ∷ c) h k = ground (arith, cmp_trans a b c)

cmp_self : (a : Text) → text_cmp a a ≡ Ordering.eq
unfolding text_cmp
cmp_self [] = refl
cmp_self (x ∷ a) = ground (arith, cmp_self a)

cmp-eq : (a b : Text) → text_cmp a b ≡ Ordering.eq → a ≡ b
unfolding text_cmp
cmp-eq [] [] h = refl
cmp-eq [] (y ∷ b) h = cc
cmp-eq (x ∷ a) [] h = cc
cmp-eq (x ∷ a) (y ∷ b) h = ground (arith, cmp-eq a b)

All-IsBefore : (x y : Text) (s : List Text) → IsBefore x y → All (IsBefore y) s → All (IsBefore x) s
All-IsBefore x y [] h a = tt
All-IsBefore x y (z ∷ s) h a = (cmp_trans x y z h a.0, All-IsBefore x y s h a.1)

not-contains_before : (x : Text) (s : List Text) → All (IsBefore x) s → contains s x ≡ false
not-contains_before x [] a = refl
not-contains_before x (y ∷ s) a =
    ground (arith, ==_iff y x, cmp_self x, a.0, not-contains_before x s a.1)

insert-All :
    (x y : Text) (s : List Text) → IsBefore y x → All (IsBefore y) s → All (IsBefore y) (insert x s)
unfolding insert
insert-All x y [] h a = (h, tt)
insert-All x y (z ∷ s) h a = ground (arith, insert-All x y s h a.1)

contains-insert : (x u : Text) (s : List Text) → contains (insert x s) u ≡ (x == u || contains s u)
unfolding insert
contains-insert x u [] = refl
contains-insert x u (y ∷ s) =
    ground (arith, ==_iff y x, ==_iff x u, ==_iff y u, contains-insert x u s)

after_of_not-IsBefore :
    (x y : Text) → (y == x) ≡ false → is_less (text_cmp x y) ≡ false → IsBefore y x
after_of_not-IsBefore x y ne h = ground (arith, ==_iff y x, cmp-eq x y, text_cmp-IsFlipped x y)

insert-IsOrdered : (x : Text) (s : List Text) → IsOrdered s → IsOrdered (insert x s)
unfolding insert
insert-IsOrdered x [] h = (tt, tt)
insert-IsOrdered x (y ∷ s) h = elim (Bool-cases (y == x)) [
  | inl here ↦ rw here h
  | inr other ↦ elim (Bool-cases (is_less (text_cmp x y))) [
    | inl less ↦
        let before : IsBefore x y = ground arith in
        rw (other, less) ((before, All-IsBefore x y s before h.0), h)
    | inr more ↦
        rw (other, more)
          (insert-All x y s (after_of_not-IsBefore x y other more) h.0, insert-IsOrdered x s h.1)
  ]
]

contains-remove :
    (x u : Text) (s : List Text)
    → IsOrdered s
    → contains (remove x s) u ≡ (if x == u then false else contains s u)
unfolding remove
contains-remove x u [] h = ground arith
contains-remove x u (y ∷ s) h = ground (
  arith,
  ==_iff y x,
  ==_iff x u,
  ==_iff y u,
  contains-remove x u s h.1,
  not-contains_before y s h.0,
)

remove-All : (x y : Text) (s : List Text) → All (IsBefore y) s → All (IsBefore y) (remove x s)
unfolding remove
remove-All x y [] a = tt
remove-All x y (z ∷ s) a = ground (arith, remove-All x y s a.1)

pub remove-IsOrdered : (x : Text) (s : List Text) → IsOrdered s → IsOrdered (remove x s)
unfolding remove
remove-IsOrdered x [] h = tt
remove-IsOrdered x (y ∷ s) h = ground (arith, remove-All x y s h.0, remove-IsOrdered x s h.1)

pub length-remove : (x : Text) (s : List Text) → length s ≤ length (remove x s) + 1
unfolding remove
length-remove x [] = omega arith
length-remove x (y ∷ s) = ground (arith, length-remove x s)

length-insert : (x : Text) (s : List Text) → 1 ≤ length (insert x s)
unfolding insert
length-insert x [] = omega arith
length-insert x (y ∷ s) = ground arith

contains-extend :
    (u : Text) (s xs : List Text) → contains (extend s xs) u ≡ (contains s u || contains xs u)
unfolding extend
contains-extend u s [] = ground arith
contains-extend u s (x ∷ xs) =
    ground (arith, contains-extend u (insert x s) xs, contains-insert x u s)

pub extend-IsOrdered : (s xs : List Text) → IsOrdered s → IsOrdered (extend s xs)
unfolding extend
extend-IsOrdered s [] h = h
extend-IsOrdered s (x ∷ xs) h = extend-IsOrdered (insert x s) xs (insert-IsOrdered x s h)

pub length-extend : (s xs : List Text) → 1 ≤ length s → 1 ≤ length (extend s xs)
unfolding extend
length-extend s [] h = h
length-extend s (x ∷ xs) h = length-extend (insert x s) xs (length-insert x s)
