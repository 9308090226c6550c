-- ===== src/Tests/Disk.antt =====
-- Examples of the file storage, on a disk that is a map from paths to bytes.
use freighter.Base.{
  text_beq, text_eq, ℕ, ◌≡◌, ◌⊎◌, refl, ==_iff, true, Option, none, some, List, [], ◌∷◌, ◌++◌, Text,
  Bytes, codes, ok, err, arith,
}
use freighter.Base.Dict
use freighter.Base.Dict.{Dict, lookup-insert}
use freighter.Base.Acts.{◌>>=◌, lift, pure, raise, gets}
use freighter.Types.Error.{IoError}
use freighter.Storage.Metadata.{default_metadata}
use freighter.Storage.Fs.{
  FilePath, FileSystem, Tree, Listing, components_of, join, is_prefix, parent, abs_path, read_file,
  write_file, or_drop, pull_file, put_file,
}
use freighter.Storage.Fs.Objects.{IsFileSystem, Outside, Inside, path_access, pull_file-put_file}

abbrev key_of : List Text → Text
key_of [] = []
key_of (n ∷ names) = b'/' ∷ (n ++ key_of names)

abbrev key : FilePath → Text
key path = key_of path.components

-- One temporary file at a time.
abbrev disk : FileSystem
disk = record {
  World = Dict Text Bytes;
  File = Bytes;
  open_file = λ path w. elim (Dict.lookup (key path) w) [
    | none ↦ err IoError.not_found
    | some bytes ↦ ok bytes
  ];
  modified = λ f w. ok none;
  read_to_end = λ f w. ok f;
  exists = λ path w. true;
  is_dir = λ path w. true;
  create_dir_all = λ path w. (ok tt, w);
  new_temp_in = λ folder w. (ok (record folder { components = codes "tmp" ∷ [] }), w);
  write_all = λ tmp bytes w. (ok tt, Dict.insert (key tmp) bytes w);
  persist = λ tmp path w. elim (Dict.lookup (key tmp) w) [
    | none ↦ (err [], w)
    | some bytes ↦ (ok tt, Dict.insert (key path) bytes (Dict.remove (key tmp) w))
  ];
  drop_temp = λ tmp w. Dict.remove (key tmp) w;
  remove_file = λ path w. (ok tt, Dict.remove (key path) w);
  read_dir = λ path w. Tree.entries Listing.done;
}

disk-IsFileSystem : IsFileSystem disk
unfolding read_file
disk-IsFileSystem = record {
  Holds = λ tmp bytes w. Dict.lookup (key tmp) w ≡ some bytes;
  written = λ folder tmp bytes w w' w'' made h.
      ground (arith, ==_iff (key tmp) (key tmp), lookup-insert (key tmp) (key tmp) bytes w');
  persisted = λ tmp path bytes w w' h done. (
    none,
    ground (
      arith,
      ==_iff (key path) (key path),
      lookup-insert (key path) (key path) bytes (Dict.remove (key tmp) w),
    ),
  );
}

abbrev root : FilePath
root = record { absolute = true; components = codes "data" ∷ [] }

path_access_example :
    Outside disk root (codes "/etc/x") (1 ∷ []) default_metadata []
    ⊎ Inside disk root (codes "/etc/x") (1 ∷ []) default_metadata []
path_access_example = path_access disk root (codes "/etc/x") (1 ∷ []) default_metadata []

abbrev after_put : Dict Text Bytes
after_put = (put_file disk root (codes "a") (1 ∷ []) default_metadata []).1

put : put_file disk root (codes "a") (1 ∷ []) default_metadata [] ≡ (ok tt, after_put)
unfolding put_file write_file or_drop abs_path join is_prefix parent components_of Dict.lookup
    Dict.insert Dict.remove ◌>>=◌ lift pure raise gets text_beq
put = refl

pull_file-put_file_example :
    (time : Option ℕ) × (pull_file disk root (codes "a") after_put
      ≡ ok (record { last_modified = time; «data» = 1 ∷ [] }))
pull_file-put_file_example =
    pull_file-put_file disk disk-IsFileSystem root (codes "a") (1 ∷ []) default_metadata []
      after_put put
