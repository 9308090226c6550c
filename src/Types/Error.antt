-- ===== src/Types/Error.antt =====
-- The error types of the three services (crates/freighter-api-types/src/index/error.rs and
-- storage/error.rs, crates/freighter-auth/src/error.rs) and the responses that they become.
-- `anyhow::Error` is its chain of messages, the outermost context first.
use freighter.Base.{ℕ, List, ◌∷◌, ◌++◌, Text, codes, []}

abbrev pub AnyError : Type 0
AnyError = List Text

-- `.context(msg)`
abbrev pub context : Text → AnyError → AnyError
context msg e = msg ∷ e

pub data IndexError : Type 0 where
  conflict : Text → IndexError
  crate_name_not_allowed : IndexError
  not_found : IndexError
  service_error : AnyError → IndexError

pub data StorageError : Type 0 where
  not_found : StorageError
  service_error : AnyError → StorageError

pub data AuthError : Type 0 where
  unauthorized forbidden invalid_credentials unimplemented crate_not_found : AuthError
  service_error : AnyError → AuthError

-- `impl From<StorageError> for IndexError`
abbrev pub index_of_storage : StorageError → IndexError
index_of_storage StorageError.not_found = IndexError.not_found
index_of_storage (StorageError.service_error e) = IndexError.service_error e

-- `anyhow::Error` from a `StorageError`: its message, and what it wraps.
abbrev pub any_of_storage : StorageError → AnyError
any_of_storage StorageError.not_found = codes "Crate was not found in the storage medium" ∷ []
any_of_storage (StorageError.service_error e) = codes "Encountered uncategorized error" ∷ e

-- `anyhow::Error` from an `IndexError`: its message, and what it wraps.
abbrev pub any_of_index : IndexError → AnyError
any_of_index (IndexError.conflict m) =
    (codes "A resource conflict occurred while attempting an operation: " ++ m) ∷ []
any_of_index IndexError.crate_name_not_allowed =
    codes
      "Requested a crate with a name that is too long (64) or contains non-ASCII characters or punctuation"
    ∷ []
any_of_index IndexError.not_found = codes "Failed to find the resource" ∷ []
any_of_index (IndexError.service_error e) = codes "Encountered uncategorized error" ∷ e

-- A panic (a failed `unwrap`, `assert!` or index): the server answers with status 500.
abbrev pub panicked : IndexError
panicked = IndexError.service_error (codes "panicked" ∷ [])

-- The kinds of `io::Error` that the program tells apart.
pub data IoError : Type 0 where
  not_found : IoError
  other : AnyError → IoError

-- `impl From<io::Error> for StorageError`
abbrev pub storage_of_io : IoError → StorageError
storage_of_io IoError.not_found = StorageError.not_found
storage_of_io (IoError.other e) = StorageError.service_error e

-- A response that carries no more than a status and a text.
pub record Rejection : Type 0 where
  pub status : ℕ
  pub body : Text

abbrev pub plain : ℕ → Text → Rejection
plain status body = record { status = status; body = body }

-- `impl IntoResponse for IndexError`
unfoldable pub index_response : IndexError → Rejection
index_response (IndexError.conflict s) =
    plain 409 (codes "A resource conflict occurred while attempting an operation: " ++ s)
index_response IndexError.not_found = plain 404 (codes "Failed to find the resource")
index_response IndexError.crate_name_not_allowed = plain 400 (
    codes
      "Requested a crate with a name that is too long (64) or contains non-ASCII characters or punctuation")
index_response (IndexError.service_error e) = plain 500 (codes "Encountered uncategorized error")

-- `impl IntoResponse for StorageError`
unfoldable pub storage_response : StorageError → Rejection
storage_response StorageError.not_found =
    plain 404 (codes "Crate was not found in the storage medium")
storage_response (StorageError.service_error e) =
    plain 500 (codes "Encountered uncategorized error")

-- `impl IntoResponse for AuthError`; `error_id` is the digest of the message, in hexadecimal digits.
unfoldable pub auth_response : (AnyError → Text) → AuthError → Rejection
auth_response error_id AuthError.forbidden =
    plain 403 (codes "The client is not allowed to perform the operation requested")
auth_response error_id AuthError.unauthorized =
    plain 401 (
      codes "The credentials were missing, or were insufficient to perform the operation requested")
auth_response error_id AuthError.crate_not_found =
    plain 404 (codes "The requested crate does not exist")
auth_response error_id AuthError.invalid_credentials =
    plain 401 (codes "The credentials supplied were invalid")
auth_response error_id AuthError.unimplemented =
    plain 501 (codes "This operation is not implemented")
auth_response error_id (AuthError.service_error e) =
    plain 500 (codes "Internal error (" ++ error_id e ++ codes ")")
