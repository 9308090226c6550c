-- ===== src/FsIndex/Provider/Listing.antt =====
-- `list` of `FsIndexProvider` (crates/freighter-fs-index/src/lib.rs). It reads every index file, by
-- tasks that end in any order (see Search.antt), and does not look at the page that is asked for.
use Prim.Native.Nat.{Ordering}
use mathlib.Core.List.{Perm}
use freighter.Base.{
  Result-cases, ℕ, ◌≡◌, Option, none, some, List, [], ◌∷◌, map, unwrap_or, codes, Result, ok, err,
  ◌>>=◌, map_err, arith, inl, inr,
}
use freighter.Base.Order.{IsFlipped, IsSorted, sort, sort-perm, sort-IsSorted}
use freighter.Types.Error.{IndexError, panicked, index_of_storage}
use freighter.Types.Index.{
  Semver, CrateVersion, Publish, SparseEntries, ListAllCrateEntry, empty_publish,
}
use freighter.Types.IndexProvider.{ListQuery}
use freighter.Storage.Metadata.{MetadataStorage}
use freighter.FsIndex.Meta.{Json}
use freighter.FsIndex.Provider.Search.{Fetched, fetch_latest}

module _ {S : Semver} where
  -- `sort_by_key(|v| Reverse(v.vers.clone()))`
  unfoldable pub newest_first : CrateVersion S → CrateVersion S → Ordering
  newest_first v w = S.version_cmp w.vers v.vers

  -- The request of the file, or one made from the newest version; without either, a panic.
  unfoldable pub publish_or_newest :
      Option (Publish S) → List (CrateVersion S) → Result IndexError (Publish S)
  publish_or_newest (some publish) entries = ok publish
  publish_or_newest none [] = err panicked
  publish_or_newest none (v ∷ entries) =
      ok (record (empty_publish S) { name = v.name; vers = v.vers })

  -- `now` is what `Utc::now()` gives.
  unfoldable pub convert_publish_to_crate_entry :
      ℕ → SparseEntries S → Option (Publish S) → Result IndexError (ListAllCrateEntry S)
  convert_publish_to_crate_entry now versions publish = do
    let entries = sort newest_first versions.entries
    p ← publish_or_newest publish entries
    let last_modified = unwrap_or versions.last_modified now
    ok (record {
      name = p.name;
      versions = map (λ v. v.vers) entries;
      description = unwrap_or p.description [];
      created_at = last_modified;
      updated_at = last_modified;
      homepage = p.homepage;
      repository = p.repository;
      documentation = p.documentation;
      keywords = p.keywords;
      categories = p.categories;
    })

  -- The loop over the results; a file that cannot be read is left out.
  unfoldable pub listed_entries :
      ℕ → List (Fetched S) → Result IndexError (List (ListAllCrateEntry S))
  listed_entries now [] = ok []
  listed_entries now (err e ∷ handles) = listed_entries now handles
  listed_entries now (ok (versions, publish) ∷ handles) = do
    entry ← convert_publish_to_crate_entry now versions publish
    results ← listed_entries now handles
    ok (entry ∷ results)

  -- If comparing two versions the other way round gives the reverse, an entry of the list has the
  -- versions of its file, each as often as there, the newest first.
  convert-versions :
      (now : ℕ) (versions : SparseEntries S) (publish : Option (Publish S))
      (e : ListAllCrateEntry S)
      → IsFlipped S.version_cmp
      → convert_publish_to_crate_entry now versions publish ≡ ok e
      → (sorted : List (CrateVersion S)) × (e.versions ≡ map (λ v. v.vers) sorted)
        × Perm sorted versions.entries
        × IsSorted newest_first sorted
  unfolding convert_publish_to_crate_entry newest_first
  convert-versions now versions publish e flipped h =
      let sorted = sort newest_first versions.entries in
      elim (Result-cases (publish_or_newest publish sorted)) [
        | inr (f, panic) ↦ absurd (ground arith)
        | inl (p, found) ↦ (
          sorted,
          ground arith,
          sort-perm newest_first versions.entries,
          sort-IsSorted newest_first (λ v w. flipped w.vers v.vers) versions.entries,
        )
      ]

module _ {S : Semver} (J : Json S) (F : MetadataStorage) (now : F.State → ℕ)
    (ended : List (Fetched S) → List (Fetched S)) where
  unfoldable pub list : ListQuery → F.State → Result IndexError (List (ListAllCrateEntry S))
  list pagination s = do
    index_keys ← map_err index_of_storage (F.list_prefix (codes "index/") s)
    listed_entries (now s) (ended (map (fetch_latest J F s) index_keys))
