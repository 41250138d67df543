-- ===== src/Tests/Bearer.antt =====
-- The verifier of bearer tokens at concrete inputs: a token that Redmine calls active.
use ruprogress_mcp.Std.Text.{
  eq_ignore_ascii_case, split_once, starts_with, to_ascii_lowercase, trim,
}
use ruprogress_mcp.OauthProxy.State.{ProxyState, take_session}
use ruprogress_mcp.Auth.Proxy.Admission.{
  IsAdmitted, require_proxy_bearer-IsAdmitted, require_proxy_bearer-take_session,
}
use ruprogress_mcp.Auth.Proxy.{ProxyReads, require_proxy_bearer}
use ruprogress_mcp.Auth.Bearer.Wellformed.{IsBearer, extract_bearer-IsBearer_iff}
use ruprogress_mcp.OauthProxy.Tokens
use ruprogress_mcp.OauthProxy.Upstream
use ruprogress_mcp.Tests.{owner, proxy_state, set_a}
use ruprogress_mcp.Auth.Bearer.{verdict, extract_bearer, admitted}
use ruprogress_mcp.Tests.{toy}
use ruprogress_mcp.Std.Int.{saturating_add, saturating_sub, pos}
use ruprogress_mcp.Std.Clock.{from_secs}
use ruprogress_mcp.RedmineClient.Model.{Introspection}
use ruprogress_mcp.OauthProxy.Crypto.{digest}
use ruprogress_mcp.Auth.Verifier.Calls.{Call}
use ruprogress_mcp.Base.{
  bytes_eq, [], err, nat_eq, none, ok, refl, some, true, ℕ, ◌∷◌, ◌≡◌, Bytes, List, Option,
  bytes_beq, codes, ◌++◌, ◌↔◌, ◌≢◌,
}
use ruprogress_mcp.Std.Map
use ruprogress_mcp.Auth.Verifier.{verify, AuthContext, VerifyReads, unauthorized}

abbrev introspection : Introspection
introspection = record {
  active = true;
  scope = none;
  client_id = none;
  username = none;
  sub = none;
  exp = some (pos 1000);
  iat = none;
  token_type = none;
}

abbrev verify_reads : ℕ → VerifyReads
verify_reads n = record {
  get_at = from_secs n;
  get_timestamp = pos n;
  check_timestamp = pos n;
  put_timestamp = pos n;
  put_at = from_secs n;
}

abbrev context : AuthContext
context = record { token = 4 ∷ []; subject = none; scopes = []; expires_at = some (pos 1000) }

-- Redmine calls a token active, and cannot be asked a second later.
abbrev asked : Call
asked = record { token = 4 ∷ []; answer = ok introspection; reads = verify_reads 10 }

abbrev asked_again : Call
asked_again = record { token = 4 ∷ []; answer = err unauthorized; reads = verify_reads 11 }

-- A value that is text as it is.
abbrev to_str : Bytes → Option Bytes
to_str value = some value

abbrev bearer_key : Bytes
bearer_key = codes "rup_at_x"

abbrev headers : List Bytes
headers = (codes "bEARER " ++ bearer_key) ∷ []

extract_bearer-IsBearer_iff_example :
    (extract_bearer to_str headers ≡ ok bearer_key) ↔ IsBearer to_str headers bearer_key
extract_bearer-IsBearer_iff_example = extract_bearer-IsBearer_iff to_str headers bearer_key

abbrev proxy_reads : ProxyReads
proxy_reads = record {
  resolve_at = from_secs 10;
  access_at = from_secs 10;
  verify_reads = verify_reads 10;
}

abbrev upstream_context : AuthContext
upstream_context = record {
  token = 11 ∷ [];
  subject = none;
  scopes = [];
  expires_at = some (pos 1000);
}

abbrev visible_state : ProxyState
visible_state = record proxy_state { tokens = (bearer_key, (owner, from_secs 3600)) ∷ [] }

extracted : extract_bearer to_str headers ≡ ok bearer_key
unfolding extract_bearer split_once eq_ignore_ascii_case to_ascii_lowercase trim bytes_beq
extracted = refl

let_in :
    (require_proxy_bearer toy to_str
      (from_secs 60)
      visible_state
      []
      headers
      (ok introspection)
      proxy_reads).2
    ≡ admitted upstream_context
unfolding require_proxy_bearer extract_bearer split_once eq_ignore_ascii_case to_ascii_lowercase
    trim bytes_beq starts_with Tokens.resolve digest Map.get Upstream.access_token verify
    saturating_add saturating_sub verdict
let_in = refl

require_proxy_bearer-IsAdmitted_example :
    IsAdmitted toy to_str
      (from_secs 60)
      visible_state
      []
      headers
      (ok introspection)
      proxy_reads
      upstream_context
require_proxy_bearer-IsAdmitted_example =
    require_proxy_bearer-IsAdmitted toy to_str (from_secs 60) visible_state [] headers
      (ok introspection) proxy_reads upstream_context let_in

require_proxy_bearer-take_session_example :
    (require_proxy_bearer toy to_str
      (from_secs 60)
      (take_session visible_state (5 ∷ [])).0
      []
      headers
      (ok introspection)
      proxy_reads).2
    ≢ admitted upstream_context
require_proxy_bearer-take_session_example =
    require_proxy_bearer-take_session toy to_str (from_secs 60) visible_state [] headers
      (ok introspection) proxy_reads upstream_context bearer_key owner set_a
      ((unfold Map.get in refl), tt) extracted
      (unfold Tokens.resolve digest Map.get bytes_beq in refl)
      (unfold take_session Upstream.take Map.get bytes_beq in refl)
