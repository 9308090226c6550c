-- ===== src/Base/Order.antt =====
-- `Ord`, its lexicographic combinations, and a stable sort (`slice::sort`, `sort_by_key`).
use Prim.Native.Nat.{compare, Ordering}
use mathlib.Core.List.{Perm, List, [], ◌∷◌}
use mathlib.Core.List.Perm
use freighter.Base.{
  ◌≡◌, refl, Bool, true, false, Option, none, some, arith, Text, if◌then◌else◌, All, Bool-cases,
  inl, inr,
}

-- `Ordering::reverse`
abbrev pub flip_order : Ordering → Ordering
flip_order Ordering.lt = Ordering.gt
flip_order Ordering.eq = Ordering.eq
flip_order Ordering.gt = Ordering.lt

-- `Ordering::then`
abbrev pub then_order : Ordering → Ordering → Ordering
then_order Ordering.eq o = o
then_order Ordering.lt o = Ordering.lt
then_order Ordering.gt o = Ordering.gt

-- Swapping the arguments of a comparison reverses its outcome.
abbrev pub IsFlipped {ℓ} : {A : Type ℓ} → (A → A → Ordering) → Type ℓ
IsFlipped {A = A} cmp = (a b : A) → cmp b a ≡ flip_order (cmp a b)

pub flip-then :
    (o p : Ordering) → flip_order (then_order o p) ≡ then_order (flip_order o) (flip_order p)
flip-then Ordering.lt p = refl
flip-then Ordering.eq p = refl
flip-then Ordering.gt p = refl

unfoldable pub text_cmp : Text → Text → Ordering
text_cmp [] [] = Ordering.eq
text_cmp [] (b ∷ t) = Ordering.lt
text_cmp (a ∷ s) [] = Ordering.gt
text_cmp (a ∷ s) (b ∷ t) = then_order (compare a b) (text_cmp s t)

compare-IsFlipped : IsFlipped compare
compare-IsFlipped a b = ground arith

pub text_cmp-IsFlipped : IsFlipped text_cmp
unfolding text_cmp
text_cmp-IsFlipped [] [] = refl
text_cmp-IsFlipped [] (b ∷ t) = refl
text_cmp-IsFlipped (a ∷ s) [] = refl
text_cmp-IsFlipped (a ∷ s) (b ∷ t) =
    rw (flip-then (compare a b) (text_cmp s t), ← compare-IsFlipped a b, ← text_cmp-IsFlipped s t)

-- `None` is before every `Some`.
unfoldable pub option_cmp {ℓ} : {A : Type ℓ} → (A → A → Ordering) → Option A → Option A → Ordering
option_cmp cmp none none = Ordering.eq
option_cmp cmp none (some b) = Ordering.lt
option_cmp cmp (some a) none = Ordering.gt
option_cmp cmp (some a) (some b) = cmp a b

pub option_cmp-IsFlipped {ℓ} :
    {A : Type ℓ} (cmp : A → A → Ordering) → IsFlipped cmp → IsFlipped (option_cmp cmp)
unfolding option_cmp
option_cmp-IsFlipped cmp h none none = refl
option_cmp-IsFlipped cmp h none (some b) = refl
option_cmp-IsFlipped cmp h (some a) none = refl
option_cmp-IsFlipped cmp h (some a) (some b) = h a b

abbrev pub is_less : Ordering → Bool
is_less Ordering.lt = true
is_less _ = false

module _ {ℓ} {A : Type ℓ} (cmp : A → A → Ordering) where
  -- Before the first element that is not less.
  unfoldable pub sorted_insert : A → List A → List A
  sorted_insert x [] = x ∷ []
  sorted_insert x (y ∷ ys) =
      let rest = sorted_insert x ys in if is_less (cmp y x) then y ∷ rest else x ∷ y ∷ ys

  unfoldable pub sort : List A → List A
  unfolding sorted_insert
  sort [] = []
  sort (x ∷ xs) = sorted_insert x (sort xs)

  -- No element is greater than the next one.
  abbrev pub IsSorted : List A → Type 0
  IsSorted [] = Unit
  IsSorted (x ∷ []) = Unit
  IsSorted (x ∷ y ∷ ys) = (is_less (cmp y x) ≡ false) × IsSorted (y ∷ ys)

  sorted_insert-perm : (x : A) (ys : List A) → Perm (sorted_insert x ys) (x ∷ ys)
  unfolding sorted_insert
  sorted_insert-perm x [] = Perm.refl (x ∷ [])
  sorted_insert-perm x (y ∷ ys) = elim (Bool-cases (is_less (cmp y x))) [
    | inl less ↦ rw less (Perm.trans (Perm.cons y (sorted_insert-perm x ys)) (Perm.swap x y ys))
    | inr other ↦ rw other (Perm.refl (x ∷ y ∷ ys))
  ]

  pub sort-perm : (xs : List A) → Perm (sort xs) xs
  unfolding sort
  sort-perm [] = Perm.refl []
  sort-perm (x ∷ xs) = Perm.trans (sorted_insert-perm x (sort xs)) (Perm.cons x (sort-perm xs))

  sorted_insert-All {κ} :
      (P : A → Type κ) (x : A) (ys : List A) → P x → All P ys → All P (sorted_insert x ys)
  unfolding sorted_insert
  sorted_insert-All P x [] p ps = (p, tt)
  sorted_insert-All P x (y ∷ ys) p ps = elim (Bool-cases (is_less (cmp y x))) [
    | inl less ↦ rw less (ps.0, sorted_insert-All P x ys p ps.1)
    | inr other ↦ rw other (p, ps)
  ]

  pub sort-All {κ} : (P : A → Type κ) (xs : List A) → All P xs → All P (sort xs)
  unfolding sort
  sort-All P [] ps = tt
  sort-All P (x ∷ xs) ps = sorted_insert-All P x (sort xs) ps.0 (sort-All P xs ps.1)

  sorted_insert_front : (x : A) (ys : List A) → IsSorted (x ∷ ys) → sorted_insert x ys ≡ x ∷ ys
  unfolding sorted_insert
  sorted_insert_front x [] s = refl
  sorted_insert_front x (y ∷ ys) s = rw s.0

  IsSorted-tail : (x : A) (ys : List A) → IsSorted (x ∷ ys) → IsSorted ys
  IsSorted-tail x [] s = tt
  IsSorted-tail x (y ∷ ys) s = s.1

  -- A sorted list is left as it is.
  sort_of_IsSorted : (xs : List A) → IsSorted xs → sort xs ≡ xs
  unfolding sort
  sort_of_IsSorted [] s = refl
  sort_of_IsSorted (x ∷ xs) s =
      rw (sort_of_IsSorted xs (IsSorted-tail x xs s)) (sorted_insert_front x xs s)

module _ {ℓ} {A : Type ℓ} (cmp : A → A → Ordering) (flipped : IsFlipped cmp) where
  not_less_back : (x y : A) → is_less (cmp y x) ≡ true → is_less (cmp x y) ≡ false
  not_less_back x y h = rw (flipped y x) (back (cmp y x) h)
    where
      back : (o : Ordering) → is_less o ≡ true → is_less (flip_order o) ≡ false
      back Ordering.lt p = refl
      back Ordering.eq p = refl
      back Ordering.gt p = cc

  cons_insert-IsSorted :
      (x y : A) (ys : List A)
      → is_less (cmp x y) ≡ false
      → IsSorted cmp (y ∷ ys)
      → IsSorted cmp (sorted_insert cmp x ys)
      → IsSorted cmp (y ∷ sorted_insert cmp x ys)
  unfolding sorted_insert
  cons_insert-IsSorted x y [] h s t = (h, tt)
  cons_insert-IsSorted x y (z ∷ ys) h s t = elim (Bool-cases (is_less (cmp z x))) [
    | inl less ↦ rw less (s.0, rw less at t)
    | inr other ↦ rw other (h, rw other at t)
  ]

  sorted_insert-IsSorted :
      (x : A) (ys : List A) → IsSorted cmp ys → IsSorted cmp (sorted_insert cmp x ys)
  unfolding sorted_insert
  sorted_insert-IsSorted x [] s = tt
  sorted_insert-IsSorted x (y ∷ ys) s = elim (Bool-cases (is_less (cmp y x))) [
    | inl less ↦ rw less (
        cons_insert-IsSorted x y ys (not_less_back x y less) s
          (sorted_insert-IsSorted x ys (IsSorted-tail cmp y ys s)))
    | inr other ↦ rw other (other, s)
  ]

  pub sort-IsSorted : (xs : List A) → IsSorted cmp (sort cmp xs)
  unfolding sort
  sort-IsSorted [] = tt
  sort-IsSorted (x ∷ xs) = sorted_insert-IsSorted x (sort cmp xs) (sort-IsSorted xs)

  pub sort_idem : (xs : List A) → sort cmp (sort cmp xs) ≡ sort cmp xs
  sort_idem xs = sort_of_IsSorted cmp (sort cmp xs) (sort-IsSorted xs)
