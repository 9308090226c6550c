-- ===== src/Auth/Fs/Sound.antt =====
-- No operation of `FsAuthProvider` leaves a crate without an owner, in memory or in the file.
use freighter.Base.{
  ℕ, ◌≡◌, true, some, inl, inr, Text, text_eq, Bytes, ok, err, length, arith, Result-cases,
}
use freighter.Base.Dict
use freighter.Auth.Base64.{IsCodec}
use freighter.Auth.Owners.{Owners, no_owners}
use freighter.Auth.Owners.Laws.{IsValid, reverse_tokens-is_some}
use freighter.Auth.Platform.{OwnersFile, Platform, loaded, file_of, read_owners, write_owners}
use freighter.Auth.Fs.{FsAuth, load_owners_file, sync_owners}

-- What the platform promises: files are replaced whole or not at all, random numbers touch no
-- file, and what was serialized is read back.
pub record IsPlatform (P : Platform) : Type 0 where
  pub codec : IsCodec P.base64
  pub random_length : (n : ℕ) (w : P.World) → length (P.random_bytes n w).0 ≡ n
  pub random_exists :
      (path : Text) (n : ℕ) (w : P.World)
      → P.try_exists path (P.random_bytes n w).1 ≡ P.try_exists path w
  pub random_open :
      (path : Text) (n : ℕ) (w : P.World)
      → P.open_file path (P.random_bytes n w).1 ≡ P.open_file path w
  pub persist_exists :
      (path : Text) (bytes : Bytes) (w : P.World)
      → P.try_exists path (P.persist path bytes w).1
        ≡ (elim (P.persist path bytes w).0 [ ok _ ↦ ok true | err _ ↦ P.try_exists path w ])
  pub persist_open :
      (path : Text) (bytes : Bytes) (w : P.World)
      → P.open_file path (P.persist path bytes w).1
        ≡ (elim (P.persist path bytes w).0 [ ok _ ↦ ok bytes | err _ ↦ P.open_file path w ])
  pub reader_writer :
      (f : OwnersFile) (bytes : Bytes) → P.to_writer f ≡ ok bytes → P.from_reader bytes ≡ ok f

loaded-IsValid : (o : Owners) → IsValid o → IsValid (loaded (file_of o))
loaded-IsValid o valid = record {
  tokens = λ t l h. reverse_tokens-is_some t l o.token_owners h;
  owned = valid.owned;
}

pub no_owners-IsValid : IsValid no_owners
unfolding Dict.lookup
no_owners-IsValid = record { tokens = λ t l h. cc; owned = λ c s h. cc }

module _ {P : Platform} where
  pub record IsSound (s : FsAuth P) : Type 0 where
    pub memory : (o : Owners) → s.owners ≡ some o → IsValid o
    pub file : (o : Owners) → load_owners_file s ≡ ok o → IsValid o

  module _ (laws : IsPlatform P) where
    -- On a platform that keeps its promises, after a successful save the file holds the owners
    -- that were saved, and after a failed one what it held before.
    load-sync :
        (o : Owners) (s : FsAuth P)
        → load_owners_file (sync_owners o s).1 ≡ (elim (sync_owners o s).0 [
          | ok _ ↦ ok (loaded (file_of o))
          | err _ ↦ load_owners_file s
        ])
    unfolding load_owners_file sync_owners write_owners read_owners
    load-sync o s = elim (Result-cases (P.to_writer (file_of o))) [
      | inl (bytes, written) ↦ ground (
        arith,
        laws.persist_exists s.owners_file_path bytes s.world,
        laws.persist_open s.owners_file_path bytes s.world,
        laws.reader_writer (file_of o) bytes written,
      )
      | inr (e, failed) ↦ ground arith
    ]

    pub sync-IsSound :
        (o : Owners) (s : FsAuth P) → IsValid o → IsSound s → IsSound (sync_owners o s).1
    sync-IsSound o s valid sound = record {
      memory = λ o' h. sound.memory o' (unfold sync_owners in h);
      file = λ o' h. elim (Result-cases (sync_owners o s).0) [
        | inl (_, done) ↦ ground (arith, load-sync o s, loaded-IsValid o valid)
        | inr (e, failed) ↦ sound.file o' (ground (arith, load-sync o s))
      ];
    }
