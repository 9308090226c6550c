-- ===== src/Tests.antt =====
-- The theorems at concrete inputs.
mod Files
mod Auth
mod Paths
mod Index
mod Types
mod Provider
mod Service
mod Buckets
mod Downloads
mod Cf
mod Pg
mod Disk
mod Web
mod Tar
mod Network
mod Registry
mod Commands
