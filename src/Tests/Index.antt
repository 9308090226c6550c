-- ===== src/Tests/Index.antt =====
-- Examples of the file index: a crate is published, refused and yanked.
use freighter.Base.{
  has_infix, ℕ, ◌≡◌, ◌≢◌, refl, none, some, List, [], ◌∷◌, ◌++◌, Bytes, text_beq, codes, ok, err,
  true, false, to_lower, to_ascii_lowercase, ◌+◌, arith,
}
use freighter.Base.Acts.{Act}
use freighter.Base.Dict
use freighter.Types.Error.{IndexError, service_error, conflict}
use freighter.Types.Index.{CrateVersion, CrateVersionExists, SearchResults}
use freighter.Types.Convert.{release_of_publish}
use freighter.FsIndex.Path.{crate_meta_file_rel_path, folder, is_valid_crate_file_name_char}
use freighter.FsIndex.Meta.{
  serialize_data, deserialize_data, write_versions, write_publish, read_lines, lines, split_lines,
}
use freighter.FsIndex.Meta.RoundTrip.{deserialize-serialize}
use freighter.FsIndex.Provider.{
  access_crate, deserialized, existing_versions, published_file, put_index_file, publish, replace,
  get_sparse_entry, confirm_existence, yank_inner, yanked_file, set_yanked, has_version,
  already_exists,
}
use freighter.FsIndex.Provider.Writes.{contents, contents-replace}
use freighter.FsIndex.Provider.Publishing.{
  listed, publish_ok, publish_failed, publish_conflict, publish_other,
}
use freighter.FsIndex.Provider.Search.{
  search, fetch_latest, found_entries, last_version, description_of,
}
use freighter.FsIndex.Provider.Yanking.{confirm-yank}
use freighter.Tests.Files.{
  numbers, files, files-IsStorage, codec, codec-IsJson, bare_version, bare_publish,
}
use freighter.Tests.Paths.{serde, serde_path}

abbrev first : CrateVersion numbers
first = bare_version serde 1 false

-- What an index file with one version and one request holds.
abbrev first_bytes : Bytes
first_bytes = (1 ∷ 2 ∷ 12 ∷ serde) ++ (10 ∷ (2 ∷ 12 ∷ serde) ++ (10 ∷ []))

abbrev pub after : files.State
after = (serde_path, first_bytes) ∷ []

-- An end step that counts, and one that fails.
abbrev pub count : Act ℕ IndexError (Unit {0})
count n = (ok tt, n + 1)

abbrev stop : Act ℕ IndexError (Unit {0})
stop n = (err (service_error []), n)

first_serialized : serialize_data codec (first ∷ []) (some (bare_publish serde 1)) ≡ ok first_bytes
unfolding serialize_data write_versions write_publish
first_serialized = refl

deserialize-serialize_example :
    deserialize_data codec first_bytes ≡ ok (first ∷ [], some (bare_publish serde 1))
deserialize-serialize_example =
    deserialize-serialize codec codec-IsJson (first ∷ []) (some (bare_publish serde 1)) first_bytes
      first_serialized

first_replaced :
    (replace codec files serde_path (first ∷ []) (some (bare_publish serde 1)) []).0 ≡ ok tt
unfolding replace serialize_data write_versions write_publish
first_replaced = refl

contents-replace_example :
    contents (
      deserialized codec files serde_path
        (replace codec files serde_path (first ∷ []) (some (bare_publish serde 1)) []).1)
    ≡ ok (first ∷ [], some (bare_publish serde 1))
contents-replace_example =
    contents-replace codec files codec-IsJson files-IsStorage serde_path (first ∷ [])
      (some (bare_publish serde 1)) [] first_replaced

serde_access : access_crate serde ≡ ok serde_path
unfolding access_crate crate_meta_file_rel_path folder is_valid_crate_file_name_char to_lower
serde_access = refl

first_published :
    publish codec files (bare_publish serde 1) [] count ([], 0)
    ≡ (ok (record { warnings = none }), (after, 1))
unfolding publish published_file existing_versions access_crate crate_meta_file_rel_path folder
    is_valid_crate_file_name_char to_lower serialize_data write_versions write_publish deserialized
    put_index_file release_of_publish Dict.lookup Dict.insert
first_published = refl

publish_ok_example :
    (old : List (CrateVersion numbers)) × (listed (get_sparse_entry codec files serde []) ≡ ok old)
    × (has_version {S = numbers} 1 old ≡ false)
    × (count 0 ≡ (ok tt, 1))
    × (listed (get_sparse_entry codec files serde after)
        ≡ ok (old ++ release_of_publish (bare_publish serde 1) [] ∷ []))
publish_ok_example =
    publish_ok codec files codec-IsJson files-IsStorage (bare_publish serde 1) [] count [] after 0 1
      (record { warnings = none }) first_published

-- An end step that fails leaves the index as it was.
stop_published :
    publish codec files (bare_publish serde 1) [] stop ([], 0) ≡ (err (service_error []), ([], 0))
unfolding publish published_file existing_versions access_crate crate_meta_file_rel_path folder
    is_valid_crate_file_name_char to_lower deserialized Dict.lookup release_of_publish
stop_published = refl

publish_failed_example : files.pull_file serde_path [] ≡ files.pull_file serde_path []
publish_failed_example =
    publish_failed codec files (bare_publish serde 1) [] stop [] [] 0 0 (service_error [])
      serde_path files-IsStorage stop_published

first_listed :
    get_sparse_entry codec files serde after
    ≡ ok (record { entries = first ∷ []; last_modified = none })
unfolding get_sparse_entry access_crate crate_meta_file_rel_path folder
    is_valid_crate_file_name_char to_lower deserialized deserialize_data read_lines lines
    split_lines Dict.lookup text_beq
first_listed = refl

publish_conflict_example :
    publish codec files (bare_publish serde 1) [] count (after, 0)
    ≡ (err (conflict (already_exists (bare_publish serde 1))), (after, 0))
publish_conflict_example =
    publish_conflict codec files (bare_publish serde 1) [] count after 0
      (record { entries = first ∷ []; last_modified = none }) first_listed refl

serde-ne-rand : to_ascii_lowercase serde ≢ to_ascii_lowercase (codes "rand")
unfolding to_lower
serde-ne-rand h = absurd (cc)

publish_other_example :
    get_sparse_entry codec files
      (codes "rand")
      (publish codec files (bare_publish serde 1) [] count ([], 0)).1.0
    ≡ get_sparse_entry codec files (codes "rand") []
publish_other_example =
    publish_other codec files (bare_publish serde 1) [] count [] 0 (codes "rand") files-IsStorage
      serde-ne-rand

abbrev yanked_bytes : Bytes
yanked_bytes = (1 ∷ 1 ∷ 12 ∷ serde) ++ (10 ∷ (2 ∷ 12 ∷ serde) ++ (10 ∷ []))

abbrev yanked : files.State
yanked = (serde_path, yanked_bytes) ∷ []

first_yanked : yank_inner codec files serde 1 true after ≡ (ok tt, yanked)
unfolding yank_inner yanked_file set_yanked replace serialize_data write_versions write_publish
    access_crate crate_meta_file_rel_path folder is_valid_crate_file_name_char to_lower deserialized
    deserialize_data read_lines lines split_lines Dict.lookup Dict.insert text_beq
first_yanked = refl

confirm-yank_example :
    ((old : CrateVersionExists) × (confirm_existence codec files serde 1 after ≡ ok old)
      × (confirm_existence codec files serde 1 yanked ≡ ok (record old { yanked = true })))
    × (confirm_existence codec files serde 2 yanked ≡ confirm_existence codec files serde 2 after)
confirm-yank_example =
    confirm-yank codec files codec-IsJson files-IsStorage serde 1 2 true after yanked
      (λ e. absurd (ground arith)) first_yanked

-- A search of an index with one file.
abbrev one_result : SearchResults numbers
one_result = record {
  crates = record { name = serde; max_version = 1; description = [] } ∷ [];
  total = 1;
}

serde_found : search codec files (λ rs. rs) (codes "er") 10 after ≡ ok one_result
unfolding search fetch_latest found_entries last_version description_of deserialize_data read_lines
    lines split_lines Dict.lookup text_beq has_infix
serde_found = refl
