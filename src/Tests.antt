-- ===== src/Tests.antt =====
-- Small concrete stores and requests. The toy primitives leave every value as it is, so that a
-- token is its own digest and a verifier its own challenge.
pub mod Stores
pub mod Sessions
pub mod Handlers
pub mod Bearer
pub mod Rounds
pub mod Redirect
pub mod Client
pub mod Limits
pub mod Scopes
pub mod Downloads
use ruprogress_mcp.Std.Clock.{Reads, from_secs}
use ruprogress_mcp.OauthProxy.Upstream.{UpstreamStore, UpstreamTokenSet, granted_scopes}
use ruprogress_mcp.OauthProxy.Tokens.{TokenEntry, TokenStore}
use ruprogress_mcp.OauthProxy.Crypto.{Crypto}
use ruprogress_mcp.OauthProxy.Codes.{CodeStore, PendingCode}
use ruprogress_mcp.Base.{Bytes, [], bytes_eq, codes, nat_eq, none, some, ℕ, ◌++◌, ◌∷◌}
use ruprogress_mcp.OauthProxy.State.{ProxyState}
use ruprogress_mcp.OauthProxy.Refresh.{active, RefreshOwner, RefreshStore}
use ruprogress_mcp.OauthProxy.Flow.{Flow, tokens}
use ruprogress_mcp.OauthProxy.Registry.{Entry}

abbrev pub toy : Crypto
toy = record { sha256 = λ x. x; base64url = λ x. x }

abbrev pub reads : ℕ → Reads
reads n = record { now = from_secs n; again = from_secs n }

abbrev pub set_a : UpstreamTokenSet
set_a = record {
  access = 11 ∷ [];
  refresh = some (12 ∷ []);
  granted_scopes = codes "view_issues" ∷ [];
  expires_at = from_secs 7200;
}

abbrev pub set_b : UpstreamTokenSet
set_b = record { access = 21 ∷ []; refresh = none; granted_scopes = []; expires_at = from_secs 100 }

-- The code [1] of client [7], with redirect URI [8] and verifier [9].
abbrev pub bound : PendingCode
bound = record { client_id = 7 ∷ []; redirect_uri = 8 ∷ []; code_challenge = 9 ∷ [] }

abbrev pub code_store : CodeStore
code_store = record {
  pending = (1 ∷ [], (bound, from_secs 60)) ∷ [];
  upstream = (1 ∷ [], set_a) ∷ [];
  consumed = [];
}

abbrev pub owner : TokenEntry
owner = record { upstream_id = 5 ∷ []; client_id = 7 ∷ [] }

abbrev pub access_key : Bytes
access_key = codes "rup_at_" ++ 2 ∷ []

abbrev pub refresh_key : Bytes
refresh_key = codes "rup_rt_" ++ 3 ∷ []

abbrev pub token_store : TokenStore
token_store = (access_key, (owner, from_secs 3600)) ∷ []

abbrev pub held : RefreshOwner
held = record { client_id = 7 ∷ []; upstream_id = 5 ∷ []; state = active }

abbrev pub refresh_store : RefreshStore
refresh_store = record { current = (refresh_key, (held, from_secs 9000)) ∷ []; retired = [] }

abbrev pub session_store : UpstreamStore
session_store = (5 ∷ [], (set_a, from_secs 8000)) ∷ (6 ∷ [], (set_b, from_secs 100)) ∷ []

abbrev pub client : Entry
client = record {
  registration = record { client_id = 7 ∷ []; redirect_uris = []; client_name = none };
  last_seen = from_secs 0;
}

abbrev pub proxy_state : ProxyState
proxy_state = record {
  registry = (7 ∷ [], client) ∷ [];
  transactions = [];
  codes = code_store;
  tokens = token_store;
  upstream_tokens = session_store;
  refresh_tokens = refresh_store;
}

abbrev pub flow : Flow
flow = record { proxy = proxy_state; cache = []; revoked = []; spawned = [] }
