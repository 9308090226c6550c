-- ===== src/PgIndex.antt =====
-- crates/freighter-pg-index: the index kept in Postgres.
pub mod Tables
pub mod Session
pub mod Publish
pub mod Rows
pub mod Triples
pub mod Provider
