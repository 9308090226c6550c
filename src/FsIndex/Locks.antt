-- ===== src/FsIndex/Locks.antt =====
-- `AccessLocks` of crates/freighter-fs-index/src/file_locks.rs: one lock for each crate in use.
-- A lock is the number that it was allocated under. The table holds weak references; `live` holds
-- a pair for each `CrateMetaPath` whose `rel_path` still holds its `Arc`, and `closing` the key of
-- each one whose `drop` has given up the `Arc` and has not yet called `on_unlocked`.
pub mod Sharing
pub mod Draining
use freighter.Base.{
  ℕ, zero, suc, ◌+◌, eqb, ◌≡◌, Option, none, some, List, [], ◌∷◌, ◌++◌, Text, text_eq,
  if◌then◌else◌,
}
use freighter.Base.Dict
use freighter.Base.Dict.{Dict}

pub record Locks : Type 0 where
  pub table : Dict Text ℕ
  pub live : List (Text × ℕ)
  pub closing : List Text
  pub next : ℕ

abbrev pub no_locks : Locks
no_locks = record { table = []; live = []; closing = []; next = 0 }

-- `Weak::strong_count`
unfoldable pub strong_count : ℕ → List (Text × ℕ) → ℕ
strong_count lock [] = 0
strong_count lock ((k, l) ∷ hs) =
    let rest = strong_count lock hs in if eqb l lock then suc rest else rest

-- A new lock, entered in the table.
abbrev pub fresh_lock : Text → Locks → Locks
fresh_lock key s = record s {
  table = Dict.insert key s.next s.table;
  live = (key, s.next) ∷ s.live;
  next = suc s.next;
}

-- `rwlock_for_key`, as `CrateMetaPath::new` calls it: the path returned holds the lock.
unfoldable pub rwlock_for_key : Text → Locks → Locks
rwlock_for_key key s = elim (Dict.lookup key s.table) [
  | some lock ↦
      if eqb (strong_count lock s.live) 0
      then fresh_lock key s
      else record s { live = (key, lock) ∷ s.live }
  | none ↦ fresh_lock key s
]

-- `on_unlocked`
unfoldable pub on_unlocked : Text → Locks → Locks
on_unlocked key s = elim (Dict.lookup key s.table) [
  | some lock ↦
      if eqb (strong_count lock s.live) 0 then record s { table = Dict.remove key s.table } else s
  | none ↦ s
]

-- The steps that the users of the locks make, in any order; each is atomic.
pub data Step (s t : Locks) : Type 0 where
  open_path : (key : Text) → t ≡ rwlock_for_key key s → Step s t
  drop_path :
      (before after : List (Text × ℕ)) (key : Text) (lock : ℕ)
      → s.live ≡ before ++ (key, lock) ∷ after
      → t ≡ record s { live = before ++ after; closing = key ∷ s.closing }
      → Step s t
  unlock_path :
      (before after : List Text) (key : Text)
      → s.closing ≡ before ++ key ∷ after
      → t ≡ on_unlocked key (record s { closing = before ++ after })
      → Step s t

pub data Reach : Locks → Type 0 where
  start : Reach no_locks
  step : {s t : Locks} → Reach s → Step s t → Reach t
