-- ===== src/Lib.antt =====
-- Freighter: a registry for Rust crates. A server answers cargo's requests with three services
-- behind traits: an index (what versions a crate has), a storage (the tarballs) and an auth provider
-- (who may do what). This library models the server's handlers, the indexes that are kept in files
-- and in Postgres, the storage in S3, the auth providers that keep a file and that check
-- Cloudflare's tokens, and the types that they share.
--
-- Parts, and where they are:
-- - Base: lists, texts, results, maps, sorting, and state passing. `Act S E A` is a computation on a
--   state `S` that returns an `A` or fails with an `E`; a failure keeps the state that it has come
--   to.
-- - Types: crates/freighter-api-types/src. Types/Error has the error enums and their responses;
--   Types/Index the records of index/mod.rs, index/request.rs and index/response.rs; Types/Convert
--   `From<CrateVersion> for Publish` and the opposite conversion in `FsIndexProvider::publish`;
--   Types/Normalize `CrateVersion::normalize`; Types/IndexProvider the trait `IndexProvider` and its
--   contract `RunsEndStep`.
-- - Storage: the traits of crates/freighter-api-types/src/storage/mod.rs as interfaces, with the
--   laws that the file index relies on (`IsStorage`); Storage/S3 has `S3StorageProvider` of
--   crates/freighter-storage/src/s3_client.rs, Storage/Fs `FsStorageProvider` of fs.rs.
-- - FsIndex: crates/freighter-fs-index/src. FsIndex/Path has `crate_meta_file_rel_path`;
--   FsIndex/Locks `AccessLocks` as a step relation over every interleaving of users, with
--   FsIndex/Locks/Draining for users who leave; FsIndex/Meta `serialize_data` and
--   `deserialize_data`; FsIndex/Provider the operations of `FsIndexProvider`.
-- - Auth: crates/freighter-auth/src. Auth/OwnerSet has the `BTreeSet` of owners, Auth/Owners the
--   methods of `Owners`, Auth/Fs those of `FsAuthProvider` (fs_backend.rs), Auth/Base64
--   base64_serde.rs, Auth/Provider the trait, Auth/Backends the file, `yes` and `no` providers;
--   Auth/Cf has `CfAccess` of cf_access.rs and `CfAuthProvider` of cf_backend.rs.
-- - PgIndex: crates/freighter-pg-index. PgIndex/Tables has the tables (sql/init-index-db.sql) and,
--   with PgIndex/Tables/Names and PgIndex/Tables/Reading, one function for each statement of
--   crates/freighter-pg-index/sql; PgIndex/Session the connection, whose requests may fail;
--   PgIndex/Publish the transaction of `PgIndexProvider::publish`; PgIndex/Rows what is made of
--   rows; PgIndex/Provider the other operations; PgIndex/Triples rules for properties that actions
--   keep. PgIndex/Tables/Integrity says when tables are sound (no version twice, no reference to
--   nothing), and PgIndex/Provider/Integrity what tables any requests can come to.
-- - Server: crates/freighter-server/src. Server/Body has the framing of a publish request, which
--   crates/freighter-client/src/lib.rs writes and api.rs reads; Server/Publish the handler
--   `publish`; Server/Api the other handlers of api.rs; Server/Index those of index.rs with
--   `ensure_correct_metadata`; Server/Downloads `serve_crate` of downloads.rs; Server/Routes the
--   tables of routes and Server/Router the handlers behind them (`router` of lib.rs); Server/Client
--   the path that the client's `fetch_index` asks for; Server/Service the state that they share, and
--   Server/Root the health check and the pages at the root (lib.rs).
-- - Client: crates/freighter-client/src. Client has the methods of `Client`, Client/Wire its errors
--   and the HTTP library as a parameter, and Client/Template the template of the download URL
--   (lib.rs); Client/Tarball has the request that is made of a tarball and Client/Commands the
--   commands (main.rs).
-- - Registry: a client (crates/freighter-client) whose HTTP library is a network with the server
--   (crates/freighter-server) at its other end.
-- - Tests: the theorems at concrete inputs.
--
-- How the parts meet: the handlers of Server take an `AuthProvider`, an `IndexProvider` and a
-- `StorageProvider`, records of operations on a state of their own. Auth/Backends,
-- FsIndex/Provider/Contract, PgIndex/Provider/Contract, Auth/Cf, Storage/S3 and Storage/Fs fill
-- them.
--
-- Numbers and loops: a byte, a character and a length are natural numbers; the length fields of a
-- request are 32 bits wide, and theorems about them say so. Every loop of the program that is
-- modelled runs over a list or, in the file storage, a tree of directories, but for two: the health
-- check of the S3 storage counts its three rounds, and the loop of `CfAccess::validated_user_id`,
-- which waits for keys that are not due, takes the number of its rounds. Two rounds are enough for
-- it: keys that were downloaded in the first one are not due in the second. A panic of an index is a
-- service error (the server answers with status 500), one of the client an outcome of its own. A
-- `HashMap` is an association list, and its iteration order is the order of the list.
--
-- Parameters, for code that is not in the repository: `Semver` (the crate `semver`), `Json`
-- (`serde_json` at the lines of an index file, with `IsJson`), `Base64` (with `IsCodec`),
-- `Auth.Platform` (file system, random numbers, HMAC and JSON of the owners file, with
-- `IsPlatform`), `Auth.Cf.Platform` (`jsonwebtoken`, the download of keys, cookies and the clock,
-- with `IsClock`), `PgIndex.Publish.Codec` (`hex` and the parsers of `semver`),
-- `PgIndex.Session.Database` (which requests of the database fail), `Storage.Fs.FileSystem`
-- (`std::fs` and `tempfile`, with `IsFileSystem`), `Client.Wire.Http` (`reqwest` and `serde_json` in
-- the client), `Client.Tarball.CargoToml` (`cargo_toml`, `crate_untar` and the parsers of `semver`),
-- `Client.Commands.Directory` (the files of the working directory, with `IsDirectory`), the records
-- of `serde` in Auth/Base64, `Storage.S3.Client` (the S3 client at a bucket, with `IsBucket`, under
-- which any request may fail), `Server.Service.Platform` (JSON of a request, SHA-256, the digest of
-- an error), `Server.Router.Axum` (which route a request takes, and what the extractors make of it,
-- with `IsAxum` and, for the index, `RoutesIndex`) and `Registry.Network` (what becomes of a request
-- and of its response on their way, with `IsNetwork`: every request arrives).
--
-- Not modelled: the start-up of the server; the layers of the server for metrics, tracing and
-- panics; how the database keeps transactions of several clients apart. Counters and logs are left
-- out. What a request that reads leaves of the count of requests is not kept by the Postgres index
-- as an `IndexProvider`. An operation of the file index or of the auth provider is one step on its
-- state, because it holds a lock from its first access to its last.
pub mod Base
pub mod Types
pub mod Storage
pub mod Auth
pub mod FsIndex
pub mod PgIndex
pub mod Server
pub mod Client
pub mod Registry
pub mod Tests
