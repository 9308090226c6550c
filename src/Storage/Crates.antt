-- ===== src/Storage/Crates.antt =====
-- `StorageProvider` of crates/freighter-api-types/src/storage/mod.rs, as an interface.
use freighter.Base.{Text, Bytes}
use freighter.Base.Acts.{Act}
use freighter.Types.Error.{AnyError, StorageError}
use freighter.Storage.Metadata.{FileResponse}

-- The trait: a crate is named by its name, its version and the digest of its tarball.
pub record StorageProvider : Type 1 where
  pub State : Type 0
  pub pull_crate : Text → Text → Bytes → Act State StorageError FileResponse
  pub put_crate : Text → Text → Bytes → Bytes → Act State StorageError (Unit {0})
  pub delete_crate : Text → Text → Bytes → Act State StorageError (Unit {0})
  pub healthcheck : Act State AnyError (Unit {0})
