-- ===== src/FsIndex/Locks/Sharing.antt =====
-- All users of a crate share one lock, no two crates share one, and no entry outlives its users.
use freighter.Base.{
  ℕ, ◌<◌, ◌≡◌, ◌≢◌, Bool, true, ◌||◌, some, List, [], ◌∷◌, Text, text_eq, if◌then◌else◌, ◌==◌,
  ==_iff, All, any, contains, arith, Option, eqb, Option-cases, ==_refl, false, none, inl, inr,
  Bool-cases, ◌++◌, contains-append, ◌↔◌, All-split, All-append, any-append,
}
use freighter.Base.Dict
use freighter.Base.Dict.{Dict}
use freighter.FsIndex.Locks.{
  start, step, Locks, strong_count, on_unlocked, fresh_lock, rwlock_for_key, Step, Reach, no_locks,
  step, open_path, drop_path, unlock_path,
}

-- A user that holds a key's lock, or that is about to clear the key.
abbrev pub in_use : Text → Locks → Bool
in_use k s = any (λ h. h.0 == k) s.live || contains s.closing k

pub record IsValid (s : Locks) : Type 0 where
  pub shared : All (λ h. Dict.lookup h.0 s.table ≡ some h.1) s.live
  pub older : (k : Text) (l : ℕ) → Dict.lookup k s.table ≡ some l → l < s.next
  pub separate :
      (k k' : Text) (l : ℕ)
      → Dict.lookup k s.table ≡ some l
      → Dict.lookup k' s.table ≡ some l
      → k ≡ k'
  pub used : (k : Text) (l : ℕ) → Dict.lookup k s.table ≡ some l → in_use k s ≡ true

-- A lock with no strong reference is nobody's.
unheld : (l : ℕ) (live : List (Text × ℕ)) → strong_count l live ≡ 0 → All (λ h. h.1 ≢ l) live
unfolding strong_count
unheld l [] h = tt
unheld l ((k, m) ∷ live) h = ground (arith, unheld l live)

-- The table without the key, or with another lock for it, still has the locks of the others.
shared_after :
    (key : Text) (table table' : Dict Text ℕ) (live : List (Text × ℕ))
    → ((k : Text)
        → Dict.lookup k table' ≡ (if key == k then Dict.lookup k table' else Dict.lookup k table))
    → All (λ h. Dict.lookup h.0 table ≡ some h.1) live
    → All (λ h. Dict.lookup key table ≢ some h.1) live
    → All (λ h. Dict.lookup h.0 table' ≡ some h.1) live
shared_after key table table' [] e a n = tt
shared_after key table table' ((k, l) ∷ live) e a n =
    (ground (arith, e k, ==_iff key k), shared_after key table table' live e a.1 n.1)

held :
    (l : ℕ) (key : Text) (table : Dict Text ℕ) (live : List (Text × ℕ))
    → ((k : Text) → Dict.lookup k table ≡ some l → k ≡ key)
    → eqb (strong_count l live) 0 ≡ false
    → All (λ h. Dict.lookup h.0 table ≡ some h.1) live
    → any (λ h. h.0 == key) live ≡ true
unfolding strong_count
held l key table [] only n a = ground arith
held l key table ((k, m) ∷ live) only n a =
    ground (arith, ==_iff k key, only k, held l key table live only)

fresh-IsValid :
    (key : Text) (s : Locks)
    → All (λ h. Dict.lookup key s.table ≢ some h.1) s.live
    → IsValid s
    → IsValid (fresh_lock key s)
fresh-IsValid key s free v =
    let look = λ (k : Text). Dict.lookup-insert key k s.next s.table in
    record {
      shared = (
        ground (arith, look key, ==_refl key),
        shared_after key s.table (Dict.insert key s.next s.table) s.live
            (λ k. ground (arith, look k)) v.shared free,
      );
      older = λ k l h. ground (arith, look k, v.older k l);
      separate = λ k k' l h h'. ground (
        arith,
        look k,
        look k',
        ==_iff key k,
        ==_iff key k',
        v.older k l,
        v.older k' l,
        v.separate k k' l,
      );
      used = λ k l h. ground (arith, look k, v.used k l);
    }

not_some_of_none : (o : Option ℕ) (live : List (Text × ℕ)) → o ≡ none → All (λ h. o ≢ some h.1) live
not_some_of_none o [] e = tt
not_some_of_none o (h ∷ live) e = (ground arith, not_some_of_none o live e)

not_some_of_unheld :
    (o : Option ℕ) (l : ℕ) (live : List (Text × ℕ))
    → o ≡ some l
    → All (λ h. h.1 ≢ l) live
    → All (λ h. o ≢ some h.1) live
not_some_of_unheld o l [] e n = tt
not_some_of_unheld o l (h ∷ live) e n = (ground (arith, n.0), not_some_of_unheld o l live e n.1)

open-IsValid : (key : Text) (s : Locks) → IsValid s → IsValid (rwlock_for_key key s)
unfolding rwlock_for_key
open-IsValid key s v = elim (Option-cases (Dict.lookup key s.table)) [
  | inl vacant ↦
      rw (vacant, rwlock_for_key) (fresh-IsValid key s (not_some_of_none _ s.live vacant) v)
  | inr (lock, entry) ↦ elim (Bool-cases (eqb (strong_count lock s.live) 0)) [
    | inl dead ↦
        rw (entry, dead, rwlock_for_key)
          (fresh-IsValid key s
            (not_some_of_unheld _ lock s.live entry (unheld lock s.live (ground arith))) v)
    | inr alive ↦
        rw (entry, alive, rwlock_for_key)
          (record {
            shared = (entry, v.shared);
            older = v.older;
            separate = v.separate;
            used = λ k l h. ground (arith, v.used k l h);
          })
  ]
]

drop-IsValid :
    (before after : List (Text × ℕ)) (key : Text) (lock : ℕ) (s : Locks)
    → s.live ≡ before ++ (key, lock) ∷ after
    → IsValid s
    → IsValid (record s { live = before ++ after; closing = key ∷ s.closing })
drop-IsValid before after key lock s e v =
    let parts = All-split _ before ((key, lock) ∷ after) (rw e at v.shared) in
    record {
      shared = All-append _ before after parts.0 parts.1.1;
      older = v.older;
      separate = v.separate;
      used = λ k l h. ground (
        arith,
        e,
        any-append (λ (h : Text × ℕ). h.0 == k) before ((key, lock) ∷ after),
        any-append (λ (h : Text × ℕ). h.0 == k) before after,
        v.used k l h,
      );
    }

unlock-IsValid :
    (before after : List Text) (key : Text) (s : Locks)
    → s.closing ≡ before ++ key ∷ after
    → IsValid s
    → IsValid (on_unlocked key (record s { closing = before ++ after }))
unfolding on_unlocked
unlock-IsValid before after key s e v = elim (Option-cases (Dict.lookup key s.table)) [
  | inl vacant ↦
      rw (vacant, on_unlocked)
        (record {
          shared = v.shared;
          older = v.older;
          separate = v.separate;
          used = λ k l h. ground (
            arith,
            e,
            ==_iff key k,
            contains-append before (key ∷ after) k,
            contains-append before after k,
            v.used k l h,
          );
        })
  | inr (lock, entry) ↦ elim (Bool-cases (eqb (strong_count lock s.live) 0)) [
    | inl dead ↦
        let look = λ (k : Text). Dict.lookup-remove key k s.table in
        rw (entry, dead, on_unlocked)
          (record {
            shared =
                shared_after key s.table (Dict.remove key s.table) s.live
                  (λ k. ground (arith, look k)) v.shared
                  (not_some_of_unheld _ lock s.live entry (unheld lock s.live (ground arith)));
            older = λ k l h. ground (arith, look k, v.older k l);
            separate = λ k k' l h h'. ground (arith, look k, look k', v.separate k k' l);
            used = λ k l h. ground (
              arith,
              e,
              look k,
              ==_iff key k,
              contains-append before (key ∷ after) k,
              contains-append before after k,
              v.used k l,
            );
          })
    | inr alive ↦
        rw (entry, alive, on_unlocked)
          (record {
            shared = v.shared;
            older = v.older;
            separate = v.separate;
            used = λ k l h. ground (
              arith,
              e,
              entry,
              ==_iff key k,
              contains-append before (key ∷ after) k,
              contains-append before after k,
              v.used k l h,
              held lock key s.table s.live (λ k' h'. v.separate k' key lock h' entry) alive
                  v.shared,
            );
          })
  ]
]

no_locks-IsValid : IsValid no_locks
unfolding Dict.lookup
no_locks-IsValid = record {
  shared = tt;
  older = λ k l h. cc;
  separate = λ k k' l h h'. cc;
  used = λ k l h. cc;
}

Step-IsValid : {s t : Locks} → Step s t → IsValid s → IsValid t
Step-IsValid {s} (open_path key e) v = rw e (open-IsValid key s v)
Step-IsValid {s} (drop_path before after key lock e e') v =
    rw e' (drop-IsValid before after key lock s e v)
Step-IsValid {s} (unlock_path before after key e e') v =
    rw e' (unlock-IsValid before after key s e v)

-- In every state that any interleaving of users reaches, the lock of each user is the one that the
-- table has for its crate, no two crates have one lock in the table, and each entry of the table
-- has a user or one that is about to clear it.
Reach-IsValid : {s : Locks} → Reach s → IsValid s
Reach-IsValid start = no_locks-IsValid
Reach-IsValid (step r st) = Step-IsValid st (Reach-IsValid r)

All-at :
    (P : Text × ℕ → Type 0) (h : Text × ℕ) (before after : List (Text × ℕ))
    → All P (before ++ h ∷ after)
    → P h
All-at P h before after a = (All-split P before (h ∷ after) a).1.0

-- Two users, wherever they stand among the users of a reachable state, hold the same lock exactly
-- if they use the same crate.
pub same_lock_iff :
    {s : Locks} (k k' : Text) (l l' : ℕ) (before after before' after' : List (Text × ℕ))
    → Reach s
    → s.live ≡ before ++ (k, l) ∷ after
    → s.live ≡ before' ++ (k', l') ∷ after'
    → (l ≡ l') ↔ (k ≡ k')
same_lock_iff k k' l l' before after before' after' r e e' =
    let v = Reach-IsValid r in
    let here = All-at _ (k, l) before after (rw e at v.shared) in
    let there = All-at _ (k', l') before' after' (rw e' at v.shared) in
    (λ p. v.separate k k' l here (rw p there), λ p. ground (arith, here, there))

-- In a reachable state without users, in which each former user has called `on_unlocked`, the
-- table has no entry.
pub no_leak :
    {s : Locks} (k : Text) → Reach s → s.live ≡ [] → s.closing ≡ [] → Dict.lookup k s.table ≡ none
no_leak {s} k r e e' = elim (Option-cases (Dict.lookup k s.table)) [
  | inl vacant ↦ vacant
  | inr (l, entry) ↦ absurd (ground (arith, (Reach-IsValid r).used k l entry))
]
