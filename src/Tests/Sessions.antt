-- ===== src/Tests/Sessions.antt =====
-- The proxy's state at concrete inputs.
use ruprogress_mcp.Tests.{access_key, owner, proxy_state, refresh_key, set_a, token_store, toy}
use ruprogress_mcp.Std.Clock.{from_secs}
use ruprogress_mcp.OauthProxy.State.Sweep.{sweep_expired_sessions-resolve}
use ruprogress_mcp.OauthProxy.State.Sessions.{take_session_lem, unless}
use ruprogress_mcp.OauthProxy.Refresh.{RefreshOutcome}
use ruprogress_mcp.OauthProxy.Crypto.{digest}
use ruprogress_mcp.Base.{bytes_eq, bytes_beq, [], none, refl, ◌==◌, ◌∷◌, ◌≡◌, ◌≢◌}
use ruprogress_mcp.Std.Map
use ruprogress_mcp.OauthProxy.Tokens
use ruprogress_mcp.OauthProxy.Refresh
use ruprogress_mcp.OauthProxy.Upstream
use ruprogress_mcp.OauthProxy.State.{
  take_session, sweep_expired_sessions, ProxyState, RegisterReads,
}

abbrev killed : ProxyState
killed = (take_session proxy_state (5 ∷ [])).0

take_session_lem_example :
    (Map.get (5 ∷ []) killed.upstream_tokens ≡ none)
    × ((Tokens.resolve toy killed.tokens access_key (from_secs 1)).1
        ≡ unless (λ id. id == 5 ∷ []) (Tokens.resolve toy token_store access_key (from_secs 1)).1)
    × ((Refresh.redeem toy killed.refresh_tokens refresh_key (from_secs 1) (from_secs 1)).1
        ≢ RefreshOutcome.ok (7 ∷ []) (5 ∷ []))
take_session_lem_example =
    take_session_lem toy proxy_state (5 ∷ []) set_a access_key refresh_key (from_secs 1)
      (from_secs 1) (7 ∷ []) ((unfold Map.get in refl), tt)
      (unfold take_session Upstream.take Map.get bytes_beq in refl)

sweep_expired_sessions-resolve_example :
    (Tokens.resolve toy
      (sweep_expired_sessions proxy_state (from_secs 8000)).0.tokens
      access_key
      (from_secs 1)).1
    ≡ none
sweep_expired_sessions-resolve_example =
    sweep_expired_sessions-resolve toy proxy_state access_key (from_secs 8000) (from_secs 1) owner
      set_a (from_secs 8000) ((unfold Map.get in refl), tt)
      (unfold Map.get bytes_beq in refl, (unfold Map.get in refl, tt))
      (unfold Tokens.resolve digest Map.get bytes_beq in refl) (unfold Map.get bytes_beq in refl)

abbrev pub register_reads : RegisterReads
register_reads = record {
  tokens_at = from_secs 1;
  refresh_at = from_secs 1;
  sweep_at = from_secs 1;
  stored_at = from_secs 1;
}
