-- ===== src/OauthProxy/State/Reachable.antt =====
-- The states that the proxy can be in: from `new`, any operations of its stores in any order. A
-- handler is such a sequence, and so is any interleaving of handlers, down to the parts of a
-- redemption and of the end of a session that hold one lock each.
use ruprogress_mcp.Std.Clock.{Duration, Instant, Reads}
use ruprogress_mcp.OauthProxy.Upstream.{UpstreamTokenSet}
use ruprogress_mcp.OauthProxy.Transactions.{Transaction}
use ruprogress_mcp.OauthProxy.Crypto.{Crypto}
use ruprogress_mcp.Base.{Bytes, List, Option, bytes_eq}
use ruprogress_mcp.OauthProxy.Tokens
use ruprogress_mcp.OauthProxy.Refresh
use ruprogress_mcp.OauthProxy.Upstream
use ruprogress_mcp.OauthProxy.Codes
use ruprogress_mcp.OauthProxy.Transactions
use ruprogress_mcp.OauthProxy.Registry
use ruprogress_mcp.OauthProxy.State.{ProxyState, RegisterReads, register_client, new}

pub data Op : Type 0 where
  registers : List Bytes → Option Bytes → Option Bytes → RegisterReads → Op
  touches : Bytes → Instant → Op
  creates : Transaction → Option Bytes → Instant → Reads → Op
  takes_transaction : Bytes → Instant → Op
  mints_code : Bytes → Bytes → Bytes → UpstreamTokenSet → Option Bytes → Instant → Reads → Op
  looks_up : Bytes → Instant → Op
  marks_consumed : Bytes → Bytes → Option Bytes → Bytes → Instant → Reads → Op
  mints_token : Bytes → Bytes → Duration → Option Bytes → Instant → Reads → Op
  resolves : Bytes → Instant → Op
  takes_token deletes_token purges_tokens : Bytes → Op
  inserts_session : UpstreamTokenSet → Option Bytes → Reads → Instant → Op
  replaces_session : Bytes → UpstreamTokenSet → Instant → Reads → Op
  claims takes_session : Bytes → Op
  sweeps_sessions : Instant → Op
  mints_refresh : Bytes → Bytes → Option Bytes → Instant → Reads → Op
  redeems_refresh : Bytes → Instant → Instant → Op
  retires : Bytes → Bytes → Instant → Reads → Op
  discards takes_refresh drops_guard deletes_refresh purges_refresh : Bytes → Op

module _ (c : Crypto) where
  unfoldable pub step : Op → ProxyState → ProxyState
  step (registers redirect_uris client_name rng t) p =
      (register_client p redirect_uris client_name rng t).0
  step (touches id now) p = record p { registry = Registry.touch p.registry id now }
  step (creates transaction rng now r) p = record p {
    transactions = (Transactions.create c p.transactions transaction rng now r).0;
  }
  step (takes_transaction state now) p = record p {
    transactions = (Transactions.take c p.transactions state now).0;
  }
  step (mints_code client_id redirect_uri code_challenge upstream rng now r) p = record p {
    codes = (Codes.mint c p.codes client_id redirect_uri code_challenge upstream rng now r).0;
  }
  step (looks_up key now) p = record p { codes = (Codes.look_up p.codes key now).0 }
  step (claims key) p = record p { codes = (Codes.claim p.codes key).0 }
  step (marks_consumed code token refresh id now r) p = record p {
    codes = Codes.mark_consumed c p.codes code token refresh id now r;
  }
  step (mints_token client_id upstream_id ttl rng now r) p = record p {
    tokens = (Tokens.mint c p.tokens client_id upstream_id ttl rng now r).0;
  }
  step (resolves token now) p = record p { tokens = (Tokens.resolve c p.tokens token now).0 }
  step (takes_token token) p = record p { tokens = (Tokens.take c p.tokens token).0 }
  step (deletes_token key) p = record p { tokens = Tokens.delete_by_digest p.tokens key }
  step (purges_tokens id) p = record p { tokens = Tokens.remove_by_upstream p.tokens id }
  step (inserts_session set rng r now) p = record p {
    upstream_tokens = (Upstream.insert p.upstream_tokens set rng r now).0;
  }
  step (replaces_session id set now r) p = record p {
    upstream_tokens = (Upstream.replace p.upstream_tokens id set now r).0;
  }
  step (takes_session id) p = record p { upstream_tokens = (Upstream.take p.upstream_tokens id).0 }
  step (sweeps_sessions now) p = record p {
    upstream_tokens = (Upstream.sweep_expired p.upstream_tokens now).0;
  }
  step (mints_refresh client_id upstream_id rng now r) p = record p {
    refresh_tokens = (Refresh.mint c p.refresh_tokens client_id upstream_id rng now r).0;
  }
  step (redeems_refresh token now later) p = record p {
    refresh_tokens = (Refresh.redeem c p.refresh_tokens token now later).0;
  }
  step (retires token id now r) p = record p {
    refresh_tokens = Refresh.retire c p.refresh_tokens token id now r;
  }
  step (discards token) p = record p { refresh_tokens = Refresh.discard c p.refresh_tokens token }
  step (takes_refresh token) p = record p {
    refresh_tokens = (Refresh.take c p.refresh_tokens token).0;
  }
  step (drops_guard key) p = record p { refresh_tokens = Refresh.drop_guard p.refresh_tokens key }
  step (deletes_refresh key) p = record p {
    refresh_tokens = Refresh.delete_by_digest p.refresh_tokens key;
  }
  step (purges_refresh id) p = record p {
    refresh_tokens = Refresh.remove_by_upstream p.refresh_tokens id;
  }

-- From `new`, by steps.
pub data Reachable (c : Crypto) : ProxyState → Type 0 where
  start : Reachable c new
  then_step : {p : ProxyState} → Reachable c p → (o : Op) → Reachable c (step c o p)
