-- ===== src/PgIndex/Provider.antt =====
-- `PgIndexProvider` of crates/freighter-pg-index/src/lib.rs: health, existence, yanking.
pub mod Entry
pub mod Listing
pub mod Confirm
pub mod Integrity
pub mod Yanking
pub mod Contract
pub mod Ranking
use freighter.Base.{
  map_err, ℕ, zero, suc, ◌++◌, Bool, true, false, Option, none, some, List, [], ◌∷◌, Text, codes,
  ok, err,
}
use freighter.Base.Acts.{Act, ◌>>=◌, ◌>>◌, raise, pure}
use freighter.Types.Error.{panicked, context, AnyError, IndexError, conflict}
use freighter.Types.Index.{Semver, CrateVersionExists}
use freighter.PgIndex.Tables.{Tables, VersionRow, Statement}
use freighter.PgIndex.Tables.Reading.{set_yank, confirm_rows}
use freighter.PgIndex.Session.{Database, Session, ask, query, prepare}
use freighter.PgIndex.Publish.{Codec}

-- The row of a checksum in hexadecimal digits.
unfoldable pub exists_of_row :
    {S : Semver} → Codec S → VersionRow → Act Session IndexError CrateVersionExists
exists_of_row C row = elim (C.hex_decode row.cksum) [
  | err e ↦ raise (IndexError.service_error (context (codes "Bad checksum") e))
  | ok cksum ↦ pure (record { yanked = row.yanked; tarball_checksum = cksum })
]

-- What `yank_inner` makes of the number of rows that came back.
abbrev pub yank_outcome : ℕ → Act Session IndexError (Unit {0})
yank_outcome zero = raise (conflict (codes "Tried to set yank status to an identical status"))
yank_outcome (suc zero) = pure tt
yank_outcome (suc (suc n)) = raise panicked

module _ (D : Database) where
  -- A connection of the pool, or a panic.
  unfoldable pub connection : Act Session IndexError (Unit {0})
  connection s = let (r, s') = ask D (λ t. some (tt, t)) s in (map_err (λ _. panicked) r, s')

  unfoldable pub healthcheck : Act Session AnyError (Unit {0})
  healthcheck = ask D (λ t. some (tt, t))

  unfoldable pub confirm_existence :
      {S : Semver} → Codec S → Text → S.Version → Act Session IndexError CrateVersionExists
  confirm_existence {S} C crate_name version = do
    connection
    prepare D (codes "Failed to prepare confirm existence statement")
    rows ←
        query D (codes "Failed to execute existential confirmation query")
          (confirm_rows crate_name (S.version_to_string version))
    elim rows [ [] ↦ raise IndexError.not_found | row ∷ _ ↦ exists_of_row C row ]

  module _ (S : Semver) where
    unfoldable pub yank_inner : Text → S.Version → Bool → Act Session IndexError (Unit {0})
    yank_inner crate_name version val = do
      connection
      prepare D (codes "Failed to prepare yank/unyank statement")
      rows ←
          query D (codes "Failed to execute yank/unyank query")
            (set_yank crate_name (S.version_to_string version) val)
      yank_outcome rows

    unfoldable pub yank_crate : Text → S.Version → Act Session IndexError (Unit {0})
    yank_crate crate_name version = yank_inner crate_name version true

    unfoldable pub unyank_crate : Text → S.Version → Act Session IndexError (Unit {0})
    unyank_crate crate_name version = yank_inner crate_name version false
