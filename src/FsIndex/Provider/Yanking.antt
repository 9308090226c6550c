-- ===== src/FsIndex/Provider/Yanking.antt =====
-- `yank_crate` and `unyank_crate`: what `confirm_existence` says afterwards.
use freighter.Base.{
  ◌≡◌, ◌≢◌, refl, Bool, Option, none, some, List, [], ◌∷◌, Text, ok, Result-cases, Option-cases,
  inl, inr, arith,
}
use freighter.Types.Index.{Semver, CrateVersion, Publish, SparseEntries, CrateVersionExists}
use freighter.Storage.Metadata.{MetadataStorage, IsStorage}
use freighter.FsIndex.Meta.{Json}
use freighter.FsIndex.Meta.RoundTrip.{IsJson}
use freighter.FsIndex.Provider.{
  access_crate, rfind, set_yanked, deserialized, confirm_existence, yanked_file, yank_inner,
}
use freighter.FsIndex.Provider.Writes.{contents, contents-replace}

module _ {S : Semver} where
  abbrev with_yanked : Bool → Option (CrateVersion S) → Option (CrateVersion S)
  with_yanked b none = none
  with_yanked b (some v) = some (record v { yanked = b })

  -- The entry that `rfind` finds is the one that is marked.
  rfind-set_yanked_self :
      (version : S.Version) (b : Bool) (vs vs' : List (CrateVersion S))
      → set_yanked version b vs ≡ some vs'
      → (v : CrateVersion S) × (rfind version vs ≡ some v)
        × (rfind version vs' ≡ some (record v { yanked = b }))
  unfolding rfind set_yanked
  rfind-set_yanked_self version b [] vs' h = cc
  rfind-set_yanked_self version b (v ∷ vs) vs' h = elim (Option-cases (set_yanked version b vs)) [
    | inr (vs'', later) ↦
        let (u, e, e') = rfind-set_yanked_self version b vs vs'' later in
        (u, ground (arith, e), ground (arith, e'))
    | inl here ↦ let e = rfind_none version b vs here in (v, ground (arith, e), ground (arith, e))
  ]
    where
      rfind_none :
          (version : S.Version) (b : Bool) (vs : List (CrateVersion S))
          → set_yanked version b vs ≡ none
          → rfind version vs ≡ none
      rfind_none version b [] h = refl
      rfind_none version b (v ∷ vs) h = ground (arith, rfind_none version b vs)

  -- Entries of other versions are found as before.
  rfind-set_yanked_ne :
      (version other : S.Version) (b : Bool) (vs vs' : List (CrateVersion S))
      → version ≢ other
      → set_yanked version b vs ≡ some vs'
      → rfind other vs' ≡ rfind other vs
  unfolding rfind set_yanked
  rfind-set_yanked_ne version other b [] vs' ne h = cc
  rfind-set_yanked_ne version other b (v ∷ vs) vs' ne h =
      elim (Option-cases (set_yanked version b vs)) [
        | inr (vs'', later) ↦ ground (arith, rfind-set_yanked_ne version other b vs vs'' ne later)
        | inl here ↦
            ground (arith, S.version_eq.beq_law v.vers version, S.version_eq.beq_law v.vers other)
      ]

module _ {S : Semver} (J : Json S) (F : MetadataStorage) (json : IsJson J)
    (files : IsStorage F) where
  -- What a yank that succeeds has read and written.
  yank_parts :
      (name : Text) (version : S.Version) (b : Bool) (s s' : F.State)
      → yank_inner J F name version b s ≡ (ok tt, s')
      → (path : Text) × (before : SparseEntries S) × (vs' : List (CrateVersion S))
        × (publish : Option (Publish S)) × (access_crate name ≡ ok path)
        × (deserialized J F path s ≡ ok (before, publish))
        × (set_yanked version b before.entries ≡ some vs')
        × (contents (deserialized J F path s') ≡ ok (vs', publish))
  unfolding yank_inner yanked_file
  yank_parts name version b s s' h = elim (Result-cases (access_crate name)) [
    | inr (e, refused) ↦ absurd (ground arith)
    | inl (path, allowed) ↦ elim (Result-cases (deserialized J F path s)) [
      | inr (e, failed) ↦ absurd (ground arith)
      | inl ((before, publish), read) ↦ elim (Option-cases (set_yanked version b before.entries)) [
        | inl missing ↦ absurd (ground arith)
        | inr (vs', marked) ↦ (
          path,
          before,
          vs',
          publish,
          allowed,
          read,
          marked,
          ground (arith, contents-replace J F json files path vs' publish s),
        )
      ]
    ]
  ]

  -- With JSON and a storage that keep their promises, after a yank or unyank that succeeds
  -- `confirm_existence` gives the version the mark that was set and the checksum that it had, and
  -- says of every other version what it said before.
  pub confirm-yank :
      (name : Text) (version other : S.Version) (b : Bool) (s s' : F.State)
      → version ≢ other
      → yank_inner J F name version b s ≡ (ok tt, s')
      → ((old : CrateVersionExists) × (confirm_existence J F name version s ≡ ok old)
          × (confirm_existence J F name version s' ≡ ok (record old { yanked = b })))
        × (confirm_existence J F name other s' ≡ confirm_existence J F name other s)
  unfolding confirm_existence
  confirm-yank name version other b s s' ne h =
      let (path, before, vs', publish, allowed, read, marked, after) =
        yank_parts name version b s s' h in
      let (v, found, found') = rfind-set_yanked_self version b before.entries vs' marked in
      (
        (record { yanked = v.yanked; tarball_checksum = v.cksum }, ground arith, ground arith),
        ground (arith, rfind-set_yanked_ne version other b before.entries vs' ne marked),
      )
