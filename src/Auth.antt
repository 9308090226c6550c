-- ===== src/Auth.antt =====
-- crates/freighter-auth: who may do what.
pub mod OwnerSet
pub mod Owners
pub mod Base64
pub mod Platform
pub mod Fs
pub mod Provider
pub mod Backends
pub mod Cf
