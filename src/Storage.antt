-- ===== src/Storage.antt =====
-- The storage services: crates/freighter-api-types/src/storage/mod.rs and crates/freighter-storage.
pub mod Metadata
pub mod Crates
pub mod S3
pub mod Fs
