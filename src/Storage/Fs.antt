-- ===== src/Storage/Fs.antt =====
-- `FsStorageProvider` of crates/freighter-storage/src/fs.rs: files below a directory, over the file
-- system of the machine as a parameter.
pub mod Objects
use freighter.Base.{
  retain, ℕ, Bool, true, false, not, ◌&&◌, Option, none, some, List, [], ◌∷◌, ◌++◌, Text, text_eq,
  text_beq, codes, Bytes, Result, ok, err, map_err, eqb, if◌then◌else◌,
}
use freighter.Base.Acts.{Act, ◌>>=◌, ◌>>◌, lift, pure, raise, gets}
use freighter.Types.Error.{AnyError, StorageError, IoError, storage_of_io}
use freighter.Storage.Metadata.{Metadata, FileResponse, MetadataStorage}

-- `PathBuf`, as its comparisons see it: whether it begins at the root, and its components.
pub record FilePath : Type 0 where
  pub absolute : Bool
  pub components : List Text

-- The components of a text: what stands between slashes, without what is empty or `.`.
unfoldable pub components_of : Text → List Text
components_of text = named (split text)
  where
    split : Text → Text × List Text
    split [] = ([], [])
    split (c ∷ t) =
        let (first, others) = split t in
        if eqb c b'/' then ([], first ∷ others) else (c ∷ first, others)

    is_named : Text → Bool
    is_named name = not (text_beq name []) && not (text_beq name (codes "."))

    named : Text × List Text → List Text
    named (first, others) = retain is_named (first ∷ others)

abbrev pub path_of : Text → FilePath
path_of [] = record { absolute = false; components = [] }
path_of (c ∷ t) = record { absolute = eqb c b'/'; components = components_of (c ∷ t) }

-- `Path::join`: an absolute path replaces the one before it.
unfoldable pub join : FilePath → FilePath → FilePath
join root path =
    if path.absolute then path else record root { components = root.components ++ path.components }

unfoldable pub is_prefix : List Text → List Text → Bool
is_prefix [] names = true
is_prefix (p ∷ ps) [] = false
is_prefix (p ∷ ps) (n ∷ names) = text_beq p n && is_prefix ps names

-- `Path::starts_with`
abbrev pub starts_with : FilePath → FilePath → Bool
starts_with path root =
    (if root.absolute then path.absolute else not path.absolute)
    && is_prefix root.components path.components

abbrev pub without_last : List Text → List Text
without_last [] = []
without_last (n ∷ names) = elim names [ [] ↦ [] | _ ∷ _ ↦ n ∷ without_last names ]

-- `Path::parent`
unfoldable pub parent : FilePath → Option FilePath
parent path = elim path.components [
  | [] ↦ none
  | _ ∷ _ ↦ some (record path { components = without_last path.components })
]

-- What `read_dir` gives below a directory: the entries with their paths (`none` if a path is not
-- UTF-8), and for a directory what is read in it in its turn.
mutual
  pub data Tree : Type 0 where
    unreadable : IoError → Tree
    entries : Listing → Tree

  pub data Listing : Type 0 where
    done : Listing
    broken : IoError → Listing
    file : Option Text → Listing → Listing
    dir : Option Text → Tree → Listing → Listing

-- `std::fs` and `tempfile`.
pub record FileSystem : Type 1 where
  pub World : Type 0
  pub File : Type 0
  pub open_file : FilePath → World → Result IoError File
  pub modified : File → World → Result IoError (Option ℕ)
  pub read_to_end : File → World → Result IoError Bytes
  pub exists : FilePath → World → Bool
  pub is_dir : FilePath → World → Bool
  pub create_dir_all : FilePath → Act World IoError (Unit {0})
  pub new_temp_in : FilePath → Act World IoError FilePath
  pub write_all : FilePath → Bytes → Act World IoError (Unit {0})
  pub persist : FilePath → FilePath → Act World AnyError (Unit {0})
  pub drop_temp : FilePath → World → World
  pub remove_file : FilePath → Act World IoError (Unit {0})
  pub read_dir : FilePath → World → Tree

abbrev pub push : Option Text → List Text → List Text
push none out = out
push (some p) out = out ++ p ∷ []

unfoldable mutual
  -- `append_dir`
  pub append_dir : Tree → List Text → Result StorageError (List Text)
  append_dir (Tree.unreadable e) out = err (storage_of_io e)
  append_dir (Tree.entries l) out = append_entries l out

  pub append_entries : Listing → List Text → Result StorageError (List Text)
  append_entries Listing.done out = ok out
  append_entries (Listing.broken e) out = err (storage_of_io e)
  append_entries (Listing.file p l) out = append_entries l (push p out)
  append_entries (Listing.dir p t l) out = elim (append_dir t out) [
    | err e ↦ err e
    | ok out' ↦ append_entries l (push p out')
  ]

-- The error of `abs_path`.
abbrev pub invalid_path : StorageError
invalid_path = StorageError.service_error (codes "invalid input parameter" ∷ [])

-- `abs_path`
unfoldable pub abs_path : FilePath → FilePath → Result StorageError FilePath
abs_path root path =
    let joined = join root path in if starts_with joined root then ok joined else err invalid_path

module _ (M : FileSystem) where
  abbrev pub io : {A : Type 0} → Act M.World IoError A → Act M.World StorageError A
  io m w = let (r, w') = m w in (map_err storage_of_io r, w')

  -- `new`
  unfoldable pub new : Text → Act M.World StorageError FilePath
  new root = do io (M.create_dir_all (path_of root)); lift (ok (path_of root))

  -- The reads of `pull_file`.
  unfoldable pub read_file : FilePath → M.World → Result IoError FileResponse
  read_file path w = elim (M.open_file path w) [
    | err e ↦ err e
    | ok opened ↦ elim (M.modified opened w) [
      | err e ↦ err e
      | ok time ↦ elim (M.read_to_end opened w) [
        | err e ↦ err e
        | ok bytes ↦ ok (record { last_modified = time; «data» = bytes })
      ]
    ]
  ]

  -- A temporary file that is dropped after a failure is deleted.
  unfoldable pub or_drop :
      {E : Type 0} → FilePath → Act M.World E (Unit {0}) → Act M.World E (Unit {0})
  or_drop tmp m w =
      let (r, w') = m w in elim r [ err e ↦ (err e, M.drop_temp tmp w') | ok _ ↦ (ok tt, w') ]

  abbrev pub persist_mapped : FilePath → FilePath → Act M.World StorageError (Unit {0})
  persist_mapped tmp path w =
      let (r, w') = M.persist tmp path w in (map_err StorageError.service_error r, w')

  -- What `put_file` does once it has its path and the directory of it.
  unfoldable pub write_file : FilePath → FilePath → Bytes → Act M.World StorageError (Unit {0})
  write_file path folder bytes = do
    there ← gets (λ w. ok (M.exists folder w))
    if there then pure tt else io (M.create_dir_all folder)
    tmp ← io (M.new_temp_in folder)
    or_drop tmp (io (M.write_all tmp bytes))
    or_drop tmp (persist_mapped tmp path)

  module _ (root : FilePath) where
    unfoldable pub pull_file : Text → M.World → Result StorageError FileResponse
    pull_file path w = map_err storage_of_io (read_file (join root (path_of path)) w)

    unfoldable pub put_file : Text → Bytes → Metadata → Act M.World StorageError (Unit {0})
    put_file path bytes meta = do
      abs ← lift (abs_path root (path_of path))
      elim (parent abs) [
        | none ↦ raise (StorageError.service_error (codes "panicked" ∷ []))
        | some folder ↦ write_file abs folder bytes
      ]

    unfoldable pub list_prefix : Text → M.World → Result StorageError (List Text)
    list_prefix path w = elim (abs_path root (path_of path)) [
      | err e ↦ err e
      | ok start ↦ append_dir (M.read_dir start w) []
    ]

    unfoldable pub delete_file : Text → Act M.World StorageError (Unit {0})
    delete_file path = lift (abs_path root (path_of path)) >>= λ abs. io (M.remove_file abs)

    unfoldable pub healthcheck : Act M.World AnyError (Unit {0})
    healthcheck w = (if M.is_dir root w then ok tt else err (codes "root not a dir" ∷ []), w)

    -- `impl MetadataStorageProvider for FsStorageProvider`
    abbrev pub fs_files : MetadataStorage
    fs_files = record {
      State = M.World;
      pull_file = pull_file;
      put_file = put_file;
      delete_file = delete_file;
      list_prefix = list_prefix;
      healthcheck = healthcheck;
    }
