-- ===== src/Server/Client.antt =====
-- The path of an index request, as crates/freighter-client/src/lib.rs makes it (`crate_prefix`,
-- `fetch_index`) and crates/freighter-server/src/index.rs reads it.
use freighter.Base.{
  ℕ, Bool, ◌||◌, sym, ◌≡◌, refl, Option, none, some, [], ◌∷◌, ◌++◌, Text, codes, true, false, not,
  all, eqb, take, drop, rsplit_once-append, arith, Option-cases, inl, inr,
}
use freighter.Types.Index.{Semver}
use freighter.Types.IndexProvider.{IndexProvider}
use freighter.Storage.Crates.{StorageProvider}
use freighter.Auth.Provider.{AuthProvider, HeaderMap}
use freighter.FsIndex.Path.{folder, crate_meta_file_rel_path, is_ascii_alphabetic, is_ascii_digit}
use freighter.FsIndex.Path.Names.{path_parts}
use freighter.Server.Service.{Platform, Service}
use freighter.Server.Index.{get_sparse_meta, sparse_meta}

-- `crate_prefix`, which panics on the empty name.
unfoldable pub crate_prefix : Text → Option Text
crate_prefix [] = none
crate_prefix (a ∷ []) = some (codes "1")
crate_prefix (a ∷ b ∷ []) = some (codes "2")
crate_prefix (a ∷ b ∷ c ∷ []) = some (codes "3/" ++ take 1 (a ∷ b ∷ c ∷ []))
crate_prefix (a ∷ b ∷ c ∷ d ∷ name) =
    let rest = drop 2 (a ∷ b ∷ c ∷ d ∷ name) in
    some (take 2 (a ∷ b ∷ c ∷ d ∷ name) ++ (b'/' ∷ take 2 rest))

-- What `fetch_index` puts behind the endpoint and a slash.
unfoldable pub fetch_path : Text → Option Text
fetch_path name = elim (crate_prefix name) [
  | none ↦ none
  | some prefix ↦ some (prefix ++ b'/' ∷ name)
]

-- The characters of crate names, and the paths of these and slashes, which no URL encodes.
abbrev pub is_name_char : ℕ → Bool
is_name_char c = is_ascii_alphabetic c || (is_ascii_digit c || (eqb c b'-' || eqb c b'_'))

abbrev pub is_plain_path : Text → Bool
is_plain_path = all (λ c. is_name_char c || eqb c b'/')

chars_plain : (n : Text) → all is_name_char n ≡ true → is_plain_path n ≡ true
chars_plain [] h = refl
chars_plain (c ∷ n) h = ground (arith, chars_plain n)

pub name_no_slash : (n : Text) → all is_name_char n ≡ true → all (λ c. not (eqb c b'/')) n ≡ true
name_no_slash [] h = refl
name_no_slash (c ∷ n) h = ground (arith, name_no_slash n)

-- The path of a name is plain and does not begin with a slash.
pub fetch_path_plain :
    (n path : Text)
    → all is_name_char n ≡ true
    → fetch_path n ≡ some path
    → (c : ℕ) × (rest : Text) × (path ≡ c ∷ rest)
      × (eqb c b'/' ≡ false)
      × (is_plain_path (c ∷ rest) ≡ true)
unfolding fetch_path crate_prefix
fetch_path_plain [] path chars h = absurd (ground arith)
fetch_path_plain (a ∷ []) path chars h =
    (b'1', b'/' ∷ a ∷ [], ground arith, refl, chars_plain (a ∷ []) chars)
fetch_path_plain (a ∷ b ∷ []) path chars h =
    (b'2', b'/' ∷ a ∷ b ∷ [], ground arith, refl, chars_plain (a ∷ b ∷ []) chars)
fetch_path_plain (a ∷ b ∷ c ∷ []) path chars h = (
  b'3',
  b'/' ∷ a ∷ b'/' ∷ a ∷ b ∷ c ∷ [],
  ground arith,
  refl,
  ground (arith, chars_plain (a ∷ b ∷ c ∷ []) chars),
)
fetch_path_plain (a ∷ b ∷ c ∷ d ∷ name) path chars h = (
  a,
  b ∷ b'/' ∷ c ∷ d ∷ b'/' ∷ a ∷ b ∷ c ∷ d ∷ name,
  ground arith,
  ground arith,
  ground (arith, chars_plain (a ∷ b ∷ c ∷ d ∷ name) chars),
)

prefix_folder : (n : Text) → crate_prefix n ≡ folder n
unfolding crate_prefix folder
prefix_folder [] = refl
prefix_folder (a ∷ []) = refl
prefix_folder (a ∷ b ∷ []) = refl
prefix_folder (a ∷ b ∷ c ∷ []) = refl
prefix_folder (a ∷ b ∷ c ∷ d ∷ n) = refl

-- For a name with an index path, the client asks for the same path without the leading `index/`.
index_path-fetch_path :
    (n p : Text)
    → crate_meta_file_rel_path n ≡ some p
    → (path : Text) × (fetch_path n ≡ some path) × (p ≡ codes "index/" ++ path)
unfolding fetch_path
index_path-fetch_path n p h =
    let (d, found, _, _, eq) = path_parts n p h in
    (d ++ b'/' ∷ n, ground (arith, prefix_folder n), sym eq)

module _ {S : Semver} (X : Platform S) (A : AuthProvider) (I : IndexProvider S)
    (T : StorageProvider) where
  -- A path of the client, as the handler takes it apart.
  pub get_sparse_meta-fetch_path :
      (headers : HeaderMap) (n path : Text) (s : Service A I T)
      → all (λ c. not (eqb c b'/')) n ≡ true
      → fetch_path n ≡ some path
      → s.config.auth_required ≡ false
      → get_sparse_meta X A I T headers path s ≡ (sparse_meta X A I T n s.index, s)
  unfolding fetch_path get_sparse_meta
  get_sparse_meta-fetch_path headers n path s no_slash h open_access =
      elim (Option-cases (crate_prefix n)) [
        | inl e ↦ absurd (ground arith)
        | inr (prefix, e) ↦
            let eq : path ≡ prefix ++ b'/' ∷ n = ground arith in
            ground (arith, rsplit_once-append b'/' prefix n no_slash)
      ]
