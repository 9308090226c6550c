-- ===== src/FsIndex/Locks/Draining.antt =====
-- When the users of the locks only leave, the table becomes empty.
use freighter.Base.{
  ℕ, ◌+◌, ◌*◌, ◌≡◌, ◌⊎◌, refl, inl, inr, none, List, [], ◌∷◌, ◌++◌, Text, length, length-append,
  arith, text_eq, suc, zero, ap,
}
use freighter.Base.Dict
use freighter.FsIndex.Locks.{
  Locks, on_unlocked, Step, Reach, step, open_path, drop_path, unlock_path,
}
use freighter.FsIndex.Locks.Sharing.{no_leak}

-- The steps of a user who leaves: giving up the lock, and `on_unlocked`.
abbrev pub IsLeaving : {s t : Locks} → Step s t → Type 0
IsLeaving (open_path key e) = ⊥
IsLeaving (drop_path before after key lock e e') = Unit
IsLeaving (unlock_path before after key e e') = Unit

-- A run of `n` such steps, by any users in any order.
pub data Leaving (s : Locks) : ℕ → Locks → Type 0 where
  stay : Leaving s zero s
  leave :
      {n : ℕ} {t u : Locks} → Leaving s n t → (st : Step t u) → IsLeaving st → Leaving s (suc n) u

-- The steps that are left to make.
abbrev pub outstanding : Locks → ℕ
outstanding s = 2 * length s.live + length s.closing

on_unlocked_users :
    (key : Text) (s : Locks)
    → ((on_unlocked key s).live ≡ s.live) × ((on_unlocked key s).closing ≡ s.closing)
unfolding on_unlocked
on_unlocked_users key s = (ground arith, ground arith)

outstanding-Step :
    {s t : Locks} (st : Step s t) → IsLeaving st → suc (outstanding t) ≡ outstanding s
outstanding-Step {s} (open_path key e) h = absurd h
outstanding-Step {s} (drop_path before after key lock e e') h =
    ground
      (arith, ap length e, length-append before ((key, lock) ∷ after), length-append before after)
outstanding-Step {s} (unlock_path before after key e e') h = ground (
  arith,
  on_unlocked_users key (record s { closing = before ++ after }),
  ap length e,
  length-append before (key ∷ after),
  length-append before after,
)

Leaving-Reach : {s t : Locks} {n : ℕ} → Reach s → Leaving s n t → Reach t
Leaving-Reach r stay = r
Leaving-Reach r (leave run st h) = step (Leaving-Reach r run) st

Leaving-outstanding : {s t : Locks} {n : ℕ} → Leaving s n t → n + outstanding t ≡ outstanding s
Leaving-outstanding stay = omega arith
Leaving-outstanding (leave run st h) = omega (arith, Leaving-outstanding run, outstanding-Step st h)

List-cases : {A : Type 0} (l : List A) → (l ≡ []) ⊎ ((x : A) × (xs : List A) × (l ≡ x ∷ xs))
List-cases [] = inl refl
List-cases (x ∷ xs) = inr (x, xs, refl)

-- Whoever is left can leave.
next_leave : (s : Locks) → (outstanding s ≡ 0) ⊎ ((t : Locks) × (st : Step s t) × IsLeaving st)
next_leave s = elim (List-cases s.live) [
  | inr ((key, lock), after, e) ↦
      inr (
        record s { live = after; closing = key ∷ s.closing },
        drop_path [] after key lock e refl,
        tt,
      )
  | inl unheld ↦ elim (List-cases s.closing) [
    | inr (key, after, e) ↦
        inr (on_unlocked key (record s { closing = after }), unlock_path [] after key e refl, tt)
    | inl closed ↦ inl (ground (arith, unheld, closed))
  ]
]

nil_of_length : {A : Type 0} (l : List A) → length l ≡ 0 → l ≡ []
nil_of_length [] h = refl
nil_of_length (x ∷ xs) h = absurd (omega arith)

-- From a reachable state of the locks, a run of `n` leaving steps (drops of paths and calls of
-- `on_unlocked`, by any users in any order) uses up `n` of the steps that are outstanding, which
-- are two for each open path and one for each path that is being dropped; and it can go on, or
-- nothing is outstanding and the table has no entry.
pub drains :
    {s t : Locks} (n : ℕ)
    → Reach s
    → Leaving s n t
    → (n + outstanding t ≡ outstanding s)
      × (((outstanding t ≡ 0) × ((k : Text) → Dict.lookup k t.table ≡ none))
          ⊎ ((u : Locks) × Leaving s (suc n) u))
drains {s} {t} n r run = (
  Leaving-outstanding run,
  elim (next_leave t) [
    | inr (u, st, leaving) ↦ inr (u, leave run st leaving)
    | inl done ↦ inl (
      done,
      λ k.
          no_leak k (Leaving-Reach r run) (nil_of_length t.live (omega arith))
            (nil_of_length t.closing (omega arith)),
    )
  ],
)
