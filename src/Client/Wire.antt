-- ===== src/Client/Wire.antt =====
-- crates/freighter-client/src/lib.rs: the errors of the client, and its HTTP library as a parameter.
use freighter.Base.{
  ℕ, eqb, Bool, Option, none, some, List, [], ◌∷◌, map, Text, codes, Bytes, Result, ok, err,
  map_err, has_infix, ends_with, if◌then◌else◌,
}
use freighter.Types.Error.{AnyError}
use freighter.Types.Index.{Semver, CrateVersion, Publish, CompletedPublication, ListAllCrateEntry}
use freighter.FsIndex.Meta.{split_lines}
use freighter.Server.Index.{RegistryConfig}
use freighter.Client.Template.{pop}

-- `Error`
pub data Error : Type 0 where
  server_error : AnyError → Error
  conflict unauthorized not_found : Error
  deserialization : AnyError → Error
  other : AnyError → Error

-- What a method ends with if it gives no result: an error, or a panic.
pub data Failure : Type 0 where
  error : Error → Failure
  panic : Failure

-- `reqwest::Error`: the status that it has, if it is one for a status, and its messages.
pub record HttpError : Type 0 where
  pub status : Option ℕ
  pub message : AnyError

pub record Request : Type 0 where
  pub method : Text
  pub url : Text
  pub query : List (Text × ℕ)
  pub form : List (Text × Text)
  pub authorization : List Text
  pub body : Bytes

pub record Response : Type 0 where
  pub status : ℕ
  pub text : Result HttpError Text
  pub bytes : Result HttpError Bytes

-- `reqwest` and `serde_json`. The world is what a server's answers depend on.
pub record Http (S : Semver) : Type 1 where
  pub World : Type 0
  pub is_url : Text → Bool
  pub is_header_value : Text → Bool
  pub url_error : Text → AnyError
  pub header_error : Text → AnyError
  pub status_message : ℕ → AnyError
  pub execute : Request → World → Result HttpError Response × World
  pub config_from_slice : Bytes → Result AnyError RegistryConfig
  pub completed_from_slice : Bytes → Result AnyError CompletedPublication
  pub list_from_slice : Bytes → Result AnyError (List (ListAllCrateEntry S))
  pub version_from_str : Text → Result AnyError (CrateVersion S)
  pub publish_to_vec : Publish S → Result AnyError Bytes

-- `impl From<reqwest::Error> for Error`
unfoldable pub error_of_reqwest : HttpError → Error
error_of_reqwest value = elim value.status [
  | none ↦ Error.other value.message
  | some status ↦
      if eqb status 500
      then Error.server_error value.message
      else if eqb status 409
      then Error.conflict
      else if eqb status 401
      then Error.unauthorized
      else if eqb status 404
      then Error.not_found
      else Error.other value.message
]

abbrev pub reqwest_failure : HttpError → Failure
reqwest_failure e = Failure.error (error_of_reqwest e)

-- A request without query, form, token and body.
abbrev pub request : Text → Text → Request
request method url = record {
  method = method;
  url = url;
  query = [];
  form = [];
  authorization = [];
  body = [];
}

-- `str::lines`: a last line that is empty does not count.
unfoldable pub drop_last_empty : List Text → List Text
drop_last_empty [] = []
drop_last_empty (l ∷ ls) = elim ls [
  | [] ↦ elim l [ [] ↦ [] | c ∷ t ↦ (c ∷ t) ∷ [] ]
  | _ ∷ _ ↦ l ∷ drop_last_empty ls
]

abbrev pub text_lines : Text → List Text
text_lines text =
    let (line, others) = split_lines text in
    map (λ l. if ends_with (b'\r' ∷ []) l then pop l else l) (drop_last_empty (line ∷ others))

-- The scheme that `publish` and `register` put in front of the API.
abbrev pub scheme : Text → Text
scheme api = if has_infix (codes "://") api then [] else codes "http://"

-- `.json()`, whose errors have no status.
unfoldable pub json : {A : Type 0} → (Bytes → Result AnyError A) → Response → Result HttpError A
json from_slice resp = elim resp.bytes [
  | err e ↦ err e
  | ok bytes ↦ map_err (λ e. record { status = none; message = e }) (from_slice bytes)
]

abbrev pub query_pair : Text → Option ℕ → List (Text × ℕ)
query_pair key none = []
query_pair key (some n) = (key, n) ∷ []
