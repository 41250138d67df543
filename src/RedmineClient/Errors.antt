-- ===== src/RedmineClient/Errors.antt =====
-- crates/redmine-client/src/error.rs: the client's errors, and how a status becomes one.
use ruprogress_mcp.Base.{
  Bool, Bytes, List, Option, [], codes, false, if◌then◌else◌, leb, ltb, nat_eq, none, some, true, ℕ,
  ◌&&◌, ◌==◌, ◌||◌,
}

-- What the program asks of a `reqwest::Error`.
pub record Transport : Type 0 where
  pub is_timeout : Bool
  pub is_connect : Bool

-- `Error`; a delay is in nanoseconds, and the messages are left out.
pub data Error : Type 0 where
  transport : Transport → Error
  api : ℕ → List Bytes → Error
  unauthorized : Error
  forbidden : Error
  not_found : Error
  rate_limited : Option ℕ → Error
  decode : Bytes → Error
  config : Error
  limit_exceeded : ℕ → ℕ → Error
  oauth_error : ℕ → Bytes → Option Bytes → Error
  foreign_origin : Bytes → Error

unfoldable pub status : Error → Option ℕ
status (api code errors) = some code
status (oauth_error code error description) = some code
status unauthorized = some 401
status forbidden = some 403
status not_found = some 404
status (rate_limited retry_after) = some 429
status _ = none

-- `StatusCode::is_server_error` and `is_success`.
abbrev pub is_server_error : ℕ → Bool
is_server_error code = leb 500 code && ltb code 600

abbrev pub is_success : ℕ → Bool
is_success code = leb 200 code && ltb code 300

unfoldable pub is_retryable : Error → Bool
is_retryable (rate_limited retry_after) = true
is_retryable (api code errors) = is_server_error code
is_retryable (transport source) = source.is_timeout || source.is_connect
is_retryable _ = false

-- What serde_json reads from an error's body.
pub record ErrorBodies : Type 0 where
  pub error_body : Bytes → Option (List Bytes)
  pub oauth_error_body : Bytes → Option (Bytes × Option Bytes)

unfoldable pub oauth_error_from_status : ErrorBodies → ℕ → Bytes → Error
oauth_error_from_status json code body = elim (json.oauth_error_body body) [
  | some (error, description) ↦ oauth_error code error description
  | none ↦ oauth_error code (codes "unknown_error") none
]

-- The messages of a body, or none where it is not one.
abbrev pub unwrap_or_default : Option (List Bytes) → List Bytes
unwrap_or_default none = []
unwrap_or_default (some errors) = errors

unfoldable pub from_status : ErrorBodies → ℕ → Bytes → Option ℕ → Error
from_status json code body retry_after =
    if code == 401
    then unauthorized
    else if code == 403
    then forbidden
    else if code == 404
    then not_found
    else if code == 429
    then rate_limited retry_after
    else api code (unwrap_or_default (json.error_body body))
