-- ===== src/Auth/Bearer.antt =====
-- auth/oauth.rs, `extract_bearer` and `require_bearer`: the token of a request, and whether the
-- request is let in. The headers are the values of `Authorization`, in order; `to_str` is the
-- http crate's reading of a value as text.
pub mod Wellformed
use ruprogress_mcp.Std.Clock.{Duration}
use ruprogress_mcp.RedmineClient.Model.{Introspection}
use ruprogress_mcp.OauthProxy.Crypto.{Crypto}
use ruprogress_mcp.Base.{
  Bool, Bytes, List, Option, Result, [], all, bytes_eq, codes, err, if◌then◌else◌, leb, length, ltb,
  nat_eq, none, not, ok, some, ℕ, ◌&&◌, ◌==◌, ◌∷◌,
}
use ruprogress_mcp.Std.Text.{split_once, eq_ignore_ascii_case, trim}
use ruprogress_mcp.Auth.Verifier.{
  verify, AuthContext, AuthError, Cache, VerifyReads, Refusal, invalid_token, unavailable,
  misconfigured,
}

abbrev pub max_token_len : ℕ
max_token_len = 4096

pub data BearerError : Type 0 where
  missing : BearerError
  malformed : Bytes → BearerError

unfoldable pub is_visible : ℕ → Bool
is_visible b = leb 33 b && leb b 126

unfoldable pub check_token : Bytes → Result Bytes BearerError
unfolding is_visible
check_token token =
    if not (trim token == token)
    then err (
        malformed (
          codes
            "Authorization header must have exactly one space between the scheme and the token"))
    else if token == []
    then err (malformed (codes "Authorization header token must not be empty"))
    else if ltb max_token_len (length token)
    then err (malformed (codes "Authorization header token exceeds the maximum accepted length"))
    else if not (all is_visible token)
    then err (
        malformed
          (codes "Authorization header token contains invalid (non-visible-ASCII) characters"))
    else ok token

unfoldable pub bearer_token : Bytes → Result Bytes BearerError
unfolding check_token
bearer_token text = elim (split_once 32 text) [
  | none ↦ err (malformed (codes "Authorization header must be \"Bearer <token>\""))
  | some (scheme, token) ↦
      if not (eq_ignore_ascii_case scheme (codes "bearer"))
      then err (malformed (codes "Authorization header must use the Bearer scheme"))
      else check_token token
]

unfoldable pub extract_bearer : (Bytes → Option Bytes) → List Bytes → Result Bytes BearerError
unfolding bearer_token
extract_bearer to_str [] = err missing
extract_bearer to_str (value ∷ again ∷ _) =
    err (malformed (codes "Authorization header must be sent exactly once"))
extract_bearer to_str (value ∷ []) = elim (to_str value) [
  | none ↦
      err (malformed (codes "Authorization header contains invalid (non-visible-ASCII) characters"))
  | some text ↦ bearer_token text
]

-- A request goes on with a context, or is challenged with 401 and perhaps an error code, or is
-- turned away with 503.
pub data Verdict : Type 0 where
  admitted : AuthContext → Verdict
  challenged : Option Bytes → Verdict
  turned_away : Verdict

unfoldable pub refused_for : BearerError → Verdict
refused_for missing = challenged none
refused_for (malformed reason) = challenged (some (codes "invalid_request"))

unfoldable pub verdict : Result AuthContext AuthError → Verdict
verdict (ok context) = admitted context
verdict (err (invalid_token reason)) = challenged (some (codes "invalid_token"))
verdict (err unavailable) = turned_away
verdict (err misconfigured) = turned_away

unfoldable pub require_bearer :
    Crypto
    → (Bytes → Option Bytes)
    → Duration
    → Cache
    → List Bytes
    → Result Introspection Refusal
    → VerifyReads
    → Cache × Verdict
unfolding extract_bearer refused_for verdict
require_bearer c to_str ttl cache headers answer t = elim (extract_bearer to_str headers) [
  | err e ↦ (cache, refused_for e)
  | ok token ↦ let (kept, result) = verify c ttl cache token answer t in (kept, verdict result)
]
