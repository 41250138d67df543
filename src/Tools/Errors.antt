-- ===== src/Tools/Errors.antt =====
-- tools/output.rs and error.rs: the error codes, and how a client's error becomes a tool's.
use ruprogress_mcp.RedmineClient.Errors.{
  Error, Transport, api, config, decode, forbidden, foreign_origin, limit_exceeded, not_found,
  oauth_error, rate_limited, transport, unauthorized,
}
use ruprogress_mcp.Base.{
  Bool, Option, arith, false, if◌then◌else◌, inl, inr, nat_eq, refl, true, ℕ, ◌==◌, ◌↔◌, ◌≡◌, ◌⊎◌,
}

pub data ErrorCode : Type 0 where
  code_unauthorized : ErrorCode
  code_forbidden : ErrorCode
  code_not_found : ErrorCode
  validation_failed : ErrorCode
  code_rate_limited : ErrorCode
  unreachable : ErrorCode
  unexpected_response : ErrorCode
  code_limit_exceeded : ErrorCode
  misconfigured : ErrorCode
  read_only : ErrorCode
  confirmation_required : ErrorCode
  children_present : ErrorCode
  file_too_large : ErrorCode
  store_full : ErrorCode
  source_required : ErrorCode
  unsupported_source : ErrorCode
  path_not_allowed : ErrorCode
  insufficient_scope : ErrorCode
  internal : ErrorCode

unfoldable pub is_retryable : ErrorCode → Bool
is_retryable code_rate_limited = true
is_retryable unreachable = true
is_retryable _ = false

-- The envelope of `err`, without its message and its hint.
pub record ToolError : Type 0 where
  pub code : ErrorCode
  pub retryable : Bool

unfoldable pub tool_err : ErrorCode → ToolError
unfolding is_retryable
tool_err code = record { code = code; retryable = is_retryable code }

unfoldable pub to_tool_error : Error → ToolError
unfolding tool_err
to_tool_error unauthorized = tool_err code_unauthorized
to_tool_error forbidden = tool_err code_forbidden
to_tool_error not_found = tool_err code_not_found
to_tool_error (rate_limited retry_after) = tool_err code_rate_limited
to_tool_error (api status errors) =
    if status == 422 then tool_err validation_failed else tool_err unexpected_response
to_tool_error (transport source) = tool_err unreachable
to_tool_error (decode context) = tool_err unexpected_response
to_tool_error config = tool_err misconfigured
to_tool_error (limit_exceeded limit actual) = tool_err code_limit_exceeded
to_tool_error (foreign_origin origin) = tool_err unexpected_response
to_tool_error (oauth_error status error description) = tool_err unexpected_response

-- An error that a retry may mend.
abbrev pub IsPassing : Error → Type 0
IsPassing e =
    ((d : Option ℕ) × (e ≡ rate_limited d)) ⊎ ((source : Transport) × (e ≡ transport source))

-- A tool's error says that the call may be retried exactly when Redmine limited the rate or was
-- not reached.
pub to_tool_error-retryable_iff : (e : Error) → ((to_tool_error e).retryable ≡ true) ↔ IsPassing e
unfolding to_tool_error tool_err is_retryable
to_tool_error-retryable_iff (rate_limited d) = (λ h. inl (d, refl), λ h. refl)
to_tool_error-retryable_iff (transport source) = (λ h. inr (source, refl), λ h. refl)
to_tool_error-retryable_iff (api status errors) = ground arith
to_tool_error-retryable_iff unauthorized = ground arith
to_tool_error-retryable_iff forbidden = ground arith
to_tool_error-retryable_iff not_found = ground arith
to_tool_error-retryable_iff (decode context) = ground arith
to_tool_error-retryable_iff config = ground arith
to_tool_error-retryable_iff (limit_exceeded limit actual) = ground arith
to_tool_error-retryable_iff (foreign_origin origin) = ground arith
to_tool_error-retryable_iff (oauth_error status error description) = ground arith
