-- ===== src/Storage/Fs/Objects.antt =====
-- What `FsStorageProvider` of crates/freighter-storage/src/fs.rs keeps, and which paths it refuses.
use freighter.Base.{
  ◌≡◌, ◌↔◌, ◌⊎◌, refl, inl, inr, ℕ, true, false, Option, List, [], ◌∷◌, ◌++◌, Text, text_beq_iff,
  Bytes, Result, ok, Bool-cases, Option-cases, Result-cases, arith, some, err, map_err, none, codes,
}
use freighter.Base.Acts.{◌>>=◌}
use freighter.Types.Error.{StorageError}
use freighter.Storage.Metadata.{Metadata}
use freighter.Storage.Fs.{
  io, FilePath, FileSystem, path_of, join, is_prefix, starts_with, parent, abs_path, read_file,
  write_file, or_drop, pull_file, put_file, delete_file, invalid_path, list_prefix, append_dir,
  storage_of_io,
}

is_prefix-append : (ps more : List Text) → is_prefix ps (ps ++ more) ≡ true
unfolding is_prefix
is_prefix-append [] more = refl
is_prefix-append (p ∷ ps) more = ground (arith, text_beq_iff p p, is_prefix-append ps more)

starts_with-join :
    (root path : FilePath) → path.absolute ≡ false → starts_with (join root path) root ≡ true
unfolding join
starts_with-join root path relative =
    let inside = is_prefix-append root.components path.components in
    elim (Bool-cases root.absolute) [ inl top ↦ ground arith | inr bottom ↦ ground arith ]

-- `abs_path` gives the root joined with the path, and accepts exactly the relative paths, whatever
-- their components are, and those that begin with the components of the root.
abs_path_iff :
    (root path q : FilePath)
    → (abs_path root path ≡ ok q)
      ↔ ((join root path ≡ q) × ((path.absolute ≡ false) ⊎ (starts_with path root ≡ true)))
unfolding abs_path join
abs_path_iff root path q = elim (Bool-cases path.absolute) [
  | inr relative ↦
      let below = starts_with-join root path relative in
      (λ h. (ground arith, inl relative), λ h. ground arith)
  | inl absolute ↦
      let same : join root path ≡ path = ground arith in
      elim (Bool-cases (starts_with path root)) [
        | inl below ↦ (λ h. (ground arith, inr below), λ h. ground arith)
        | inr outside ↦ (λ h. absurd (ground arith), λ h. absurd (refused h.1 absolute outside))
      ]
]
  where
    refused :
        (path.absolute ≡ false) ⊎ (starts_with path root ≡ true)
        → path.absolute ≡ true
        → starts_with path root ≡ false
        → ⊥
    refused (inl relative) absolute outside = ground arith
    refused (inr below) absolute outside = ground arith

absolute_join : (root path : FilePath) → path.absolute ≡ true → join root path ≡ path
unfolding join
absolute_join root path h = ground arith

abs_path-err :
    (root path : FilePath) (e : StorageError)
    → abs_path root path ≡ err e
    → (path.absolute ≡ true) × (starts_with path root ≡ false) × (e ≡ invalid_path)
unfolding abs_path join
abs_path-err root path e h = elim (Bool-cases path.absolute) [
  | inr relative ↦ let below = starts_with-join root path relative in absurd (ground arith)
  | inl absolute ↦ elim (Bool-cases (starts_with path root)) [
    | inl below ↦ absurd (ground arith)
    | inr outside ↦ (absolute, outside, ground arith)
  ]
]

-- What is relied on of the file system: `Holds tmp bytes w` says that the temporary file `tmp` holds
-- these bytes. Writing them to one that was just made makes it so, and after it was renamed they are read.
pub record IsFileSystem (M : FileSystem) : Type 1 where
  pub Holds : FilePath → Bytes → M.World → Type 0
  pub written :
      (folder tmp : FilePath) (bytes : Bytes) (w w' w'' : M.World)
      → M.new_temp_in folder w ≡ (ok tmp, w')
      → M.write_all tmp bytes w' ≡ (ok tt, w'')
      → Holds tmp bytes w''
  pub persisted :
      (tmp path : FilePath) (bytes : Bytes) (w w' : M.World)
      → Holds tmp bytes w
      → M.persist tmp path w ≡ (ok tt, w')
      → (time : Option ℕ) × (read_file M path w'
          ≡ ok (record { last_modified = time; «data» = bytes }))

module _ (M : FileSystem) (machine : IsFileSystem M) where
  write_file_ok :
      (path folder : FilePath) (bytes : Bytes) (w w' : M.World)
      → write_file M path folder bytes w ≡ (ok tt, w')
      → (time : Option ℕ) × (read_file M path w'
          ≡ ok (record { last_modified = time; «data» = bytes }))
  unfolding write_file or_drop ◌>>=◌
  write_file_ok path folder bytes w w' h =
      let made : Result StorageError (Unit {0}) × M.World = elim (M.exists folder w) [
        | true ↦ (ok tt, w)
        | false ↦ io M (M.create_dir_all folder) w
      ] in
      elim (Result-cases made.0) [
        | inr (e, failed) ↦ absurd (ground arith)
        | inl (_, there) ↦ elim (Result-cases (M.new_temp_in folder made.1).0) [
          | inr (e, failed) ↦ absurd (ground arith)
          | inl (tmp, fresh) ↦
              let w2 = (M.new_temp_in folder made.1).1 in
              elim (Result-cases (M.write_all tmp bytes w2).0) [
                | inr (e, failed) ↦ absurd (ground arith)
                | inl (_, full) ↦
                    let w3 = (M.write_all tmp bytes w2).1 in
                    elim (Result-cases (M.persist tmp path w3).0) [
                      | inr (e, failed) ↦ absurd (ground arith)
                      | inl (_, kept) ↦
                          machine.persisted tmp path bytes w3 w'
                            (machine.written folder tmp bytes made.1 w2 w3 (ground arith)
                              (ground arith))
                            (ground arith)
                    ]
              ]
        ]
      ]

  -- Over a file system on which a temporary file holds what was written to it, and a file that was
  -- renamed from one is read as that one, a file that `put_file` has stored with success is pulled
  -- with the same bytes.
  pub pull_file-put_file :
      (root : FilePath) (path : Text) (bytes : Bytes) (meta : Metadata) (w w' : M.World)
      → put_file M root path bytes meta w ≡ (ok tt, w')
      → (time : Option ℕ) × (pull_file M root path w'
          ≡ ok (record { last_modified = time; «data» = bytes }))
  unfolding put_file pull_file ◌>>=◌
  pull_file-put_file root path bytes meta w w' h =
      elim (Result-cases (abs_path root (path_of path))) [
        | inr (e, refused) ↦ absurd (ground arith)
        | inl (q, allowed) ↦ elim (Option-cases (parent q)) [
          | inl top ↦ absurd (ground arith)
          | inr (folder, below) ↦
              let (time, read) = write_file_ok q folder bytes w w' (ground arith) in
              let same = ((abs_path_iff root (path_of path) q).0 allowed).0 in
              (time, ground (arith, read, same))
        ]
      ]

-- What the methods make of a path, on every branch of the check that three of them make.
module _ (M : FileSystem) (root : FilePath) (path : Text) (bytes : Bytes) (meta : Metadata)
    (w : M.World) where
  -- The path is absolute and not below the root: only `pull_file` goes there.
  abbrev pub Outside : Type 0
  Outside =
      ((path_of path).absolute ≡ true)
      × (starts_with (path_of path) root ≡ false)
      × (put_file M root path bytes meta w ≡ (err invalid_path, w))
      × (delete_file M root path w ≡ (err invalid_path, w))
      × (list_prefix M root path w ≡ err invalid_path)
      × (pull_file M root path w ≡ map_err storage_of_io (read_file M (path_of path) w))

  -- `put_file` behind the check: in the parent directory, or a panic if there is none.
  abbrev pub Written : Type 0
  Written =
      ((folder : FilePath) × (parent (join root (path_of path)) ≡ some folder)
        × (put_file M root path bytes meta w
            ≡ write_file M (join root (path_of path)) folder bytes w))
      ⊎ ((parent (join root (path_of path)) ≡ none)
          × (put_file M root path bytes meta w
              ≡ (err (StorageError.service_error (codes "panicked" ∷ [])), w)))

  -- The path is relative or begins as the root does: all methods go to the root joined with it.
  abbrev pub Inside : Type 0
  Inside =
      (((path_of path).absolute ≡ false) ⊎ (starts_with (path_of path) root ≡ true))
      × Written
      × (delete_file M root path w ≡ io M (M.remove_file (join root (path_of path))) w)
      × (list_prefix M root path w ≡ append_dir (M.read_dir (join root (path_of path)) w) [])
      × (pull_file M root path w ≡ map_err storage_of_io (read_file M (join root (path_of path)) w))

  -- An absolute path that does not begin with the components of the root is refused by `put_file`,
  -- `delete_file` and `list_prefix`, which change nothing, whereas `pull_file` reads what lies
  -- there; with every other path, relative ones whatever their components are, all four go to the
  -- root joined with it (where `put_file` panics if that has no parent).
  pub path_access : Outside ⊎ Inside
  unfolding put_file delete_file list_prefix pull_file ◌>>=◌
  path_access =
      let p = path_of path in
      elim (Result-cases (abs_path root p)) [
        | inl (q, allowed) ↦
            let (same, why) = (abs_path_iff root p q).0 allowed in
            let written : Written = elim (Option-cases (parent q)) [
              | inl top ↦ inr (ground (arith, same), ground (arith, same))
              | inr (folder, below) ↦ inl (folder, ground (arith, same), ground (arith, same))
            ] in
            inr (why, written, ground (arith, same), ground (arith, same), refl)
        | inr (e, refused) ↦
            let (absolute, outside, why) = abs_path-err root p e refused in
            let there : join root p ≡ p = absolute_join root p absolute in
            inl (
              absolute,
              outside,
              ground (arith, why),
              ground (arith, why),
              ground (arith, why),
              rw there refl,
            )
      ]
