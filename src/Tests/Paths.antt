-- ===== src/Tests/Paths.antt =====
-- Examples of the paths and the locks of the file index.
use freighter.Base.{
  ℕ, ◌≡◌, ◌↔◌, refl, none, some, [], ◌∷◌, Text, codes, text_beq, text_eq, ◌+◌, ◌⊎◌,
}
use freighter.Base.Dict
use freighter.FsIndex.Path.{crate_meta_file_rel_path, folder, is_valid_crate_file_name_char}
use freighter.FsIndex.Path.Names.{IsName, path_exists_iff}
use freighter.FsIndex.Locks.{
  Locks, no_locks, Reach, start, step, open_path, drop_path, unlock_path, rwlock_for_key,
  on_unlocked, strong_count,
}
use freighter.FsIndex.Locks.Sharing.{same_lock_iff}
use freighter.FsIndex.Locks.Draining.{Leaving, stay, leave, outstanding, drains}

abbrev pub serde : Text
serde = codes "serde"

abbrev pub serde_path : Text
serde_path = codes "index/se/rd/serde"

serde_rel_path : crate_meta_file_rel_path serde ≡ some serde_path
unfolding crate_meta_file_rel_path folder is_valid_crate_file_name_char
serde_rel_path = refl

path_exists_iff_example : ((p : Text) × (crate_meta_file_rel_path serde ≡ some p)) ↔ IsName serde
path_exists_iff_example = path_exists_iff serde

-- `a` is open twice and `b` once.
abbrev two_open : Locks
two_open = record {
  table = (codes "a", 0) ∷ (codes "b", 1) ∷ [];
  live = (codes "a", 0) ∷ (codes "b", 1) ∷ (codes "a", 0) ∷ [];
  closing = [];
  next = 2;
}

two_open-Reach : Reach two_open
unfolding rwlock_for_key strong_count Dict.lookup Dict.insert text_beq
two_open-Reach =
    step (step (step start (open_path (codes "a") refl)) (open_path (codes "b") refl))
      (open_path (codes "a") refl)

-- Opened, dropped and unlocked.
one_closed-Reach : Reach (record no_locks { next = 1 })
unfolding rwlock_for_key on_unlocked strong_count Dict.lookup Dict.insert Dict.remove text_beq
one_closed-Reach =
    step (step (step start (open_path (codes "a") refl)) (drop_path [] [] (codes "a") 0 refl refl))
      (unlock_path [] [] (codes "a") refl refl)

same_lock_iff_example : (◌≡◌ {A = ℕ} 0 1) ↔ (codes "a" ≡ codes "b")
same_lock_iff_example =
    same_lock_iff (codes "a") (codes "b") 0 1 [] ((codes "b", 1) ∷ (codes "a", 0) ∷ [])
      ((codes "a", 0) ∷ []) ((codes "a", 0) ∷ []) two_open-Reach refl refl

-- The first user of `a` has left; the second user keeps its entry.
abbrev one_left : Locks
one_left = record {
  table = (codes "a", 0) ∷ (codes "b", 1) ∷ [];
  live = (codes "b", 1) ∷ (codes "a", 0) ∷ [];
  closing = [];
  next = 2;
}

first_leaves : Leaving two_open 2 one_left
unfolding on_unlocked strong_count Dict.lookup Dict.remove text_beq
first_leaves =
    leave
      (leave stay (drop_path [] ((codes "b", 1) ∷ (codes "a", 0) ∷ []) (codes "a") 0 refl refl) tt)
      (unlock_path [] [] (codes "a") refl refl) tt

drains_example :
    (2 + outstanding one_left ≡ outstanding two_open)
    × (((outstanding one_left ≡ 0) × ((k : Text) → Dict.lookup k one_left.table ≡ none))
        ⊎ ((u : Locks) × Leaving two_open 3 u))
drains_example = drains 2 two_open-Reach first_leaves
