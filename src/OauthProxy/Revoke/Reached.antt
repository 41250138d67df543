-- ===== src/OauthProxy/Revoke/Reached.antt =====
-- A revocation is a sequence of the stores' operations.
use ruprogress_mcp.OauthProxy.Flow.Reached.{take_session-Reachable}
use ruprogress_mcp.OauthProxy.Flow.Proxy.{kill_session-proxy}
use ruprogress_mcp.OauthProxy.Crypto.{Crypto}
use ruprogress_mcp.Base.{Bytes, Option-cases, arith, bytes_eq, inl, inr}
use ruprogress_mcp.OauthProxy.State.Reachable.{
  Reachable, then_step, step, takes_token, takes_refresh,
}
use ruprogress_mcp.OauthProxy.Tokens
use ruprogress_mcp.OauthProxy.Refresh
use ruprogress_mcp.OauthProxy.Flow.{Flow, kill_session}
use ruprogress_mcp.OauthProxy.Revoke.{revoke_token, revoke_access, revoke_refresh}

-- A revocation takes a reachable state to a reachable one, whatever the token is.
pub revoke_token-Reachable :
    (c : Crypto) (f : Flow) (token : Bytes)
    → Reachable c f.proxy
    → Reachable c (revoke_token c f token).proxy
unfolding revoke_token revoke_access revoke_refresh
revoke_token-Reachable c f token r =
    let taken = record f {
      proxy = record f.proxy { tokens = (Tokens.take c f.proxy.tokens token).0 };
    } in
    let dropped = record f {
      proxy = record f.proxy { refresh_tokens = (Refresh.take c f.proxy.refresh_tokens token).0 };
    } in
    let one : Reachable c taken.proxy = (unfold step in then_step r (takes_token token)) in
    let two : Reachable c dropped.proxy = (unfold step in then_step r (takes_refresh token)) in
    let killed : (id : Bytes) → Reachable c (kill_session c taken id).proxy =
      λ id. rw (kill_session-proxy c taken id) (take_session-Reachable c taken.proxy id one) in
    let ended : (id : Bytes) → Reachable c (kill_session c dropped id).proxy =
      λ id. rw (kill_session-proxy c dropped id) (take_session-Reachable c dropped.proxy id two) in
    elim (Option-cases (Tokens.take c f.proxy.tokens token).1) [
      | inl absent ↦ elim (Option-cases (Refresh.take c f.proxy.refresh_tokens token).1) [
        | inl gone ↦ ground (arith, absent, gone, one, two, r)
        | inr (held, there) ↦ ground (arith, absent, there, one, two, r, ended held.1)
      ]
      | inr (entry, found) ↦ elim (Option-cases (Refresh.take c f.proxy.refresh_tokens token).1) [
        | inl gone ↦ ground (arith, found, gone, one, two, r, killed entry.upstream_id)
        | inr (held, there) ↦
            ground (arith, found, there, one, two, r, killed entry.upstream_id, ended held.1)
      ]
    ]
