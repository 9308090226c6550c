-- ===== src/Server.antt =====
-- crates/freighter-server: the HTTP service over an index, a storage and an auth provider.
pub mod Body
pub mod Service
pub mod Root
pub mod Publish
pub mod Api
pub mod Index
pub mod Downloads
pub mod Client
pub mod Routes
pub mod Router
