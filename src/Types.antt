-- ===== src/Types.antt =====
-- crates/freighter-api-types: the types that the index, the storage, the server and the client share.
pub mod Error
pub mod Index
pub mod IndexProvider
pub mod Convert
pub mod Normalize
