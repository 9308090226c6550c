-- ===== src/FsIndex.antt =====
-- crates/freighter-fs-index: the index kept as one file for each crate.
pub mod Path
pub mod Locks
pub mod Meta
pub mod Provider
