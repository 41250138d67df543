-- ===== src/OauthProxy/Flow/Reached.antt =====
-- What the handlers do to the stores is a sequence of the stores' operations.
use ruprogress_mcp.Std.Clock.{Duration, Instant}
use ruprogress_mcp.OauthProxy.Upstream.{UpstreamTokenSet}
use ruprogress_mcp.OauthProxy.Crypto.{Crypto}
use ruprogress_mcp.Base.{Bool, Bytes, List, [], arith, bytes_eq, ◌∷◌}
use ruprogress_mcp.OauthProxy.State.Reachable.{
  Reachable, then_step, step, takes_session, purges_tokens, purges_refresh, sweeps_sessions,
  mints_token, mints_refresh,
}
use ruprogress_mcp.OauthProxy.Tokens
use ruprogress_mcp.OauthProxy.Refresh
use ruprogress_mcp.OauthProxy.Upstream
use ruprogress_mcp.OauthProxy.State
use ruprogress_mcp.OauthProxy.State.{take_session, purge_tokens, purge_all, ProxyState}
use ruprogress_mcp.OauthProxy.Flow.{mint_token_pair, mint_refresh, MintReads}

module _ (c : Crypto) where
  pub purge_tokens-Reachable :
      (p : ProxyState) (id : Bytes) → Reachable c p → Reachable c (purge_tokens p id)
  unfolding purge_tokens step
  purge_tokens-Reachable p id r = then_step (then_step r (purges_tokens id)) (purges_refresh id)

  pub take_session-Reachable :
      (p : ProxyState) (id : Bytes) → Reachable c p → Reachable c (take_session p id).0
  unfolding take_session
  take_session-Reachable p id r =
      let taken : Reachable c
          (record p { upstream_tokens = (Upstream.take p.upstream_tokens id).0 }) =
        (unfold step in then_step r (takes_session id)) in
      let purged =
        purge_tokens-Reachable
          (record p { upstream_tokens = (Upstream.take p.upstream_tokens id).0 }) id taken in
      ground (arith, taken, purged)

  purge_all-Reachable :
      (p : ProxyState) (swept : List (Bytes × UpstreamTokenSet))
      → Reachable c p
      → Reachable c (purge_all p swept)
  unfolding purge_all
  purge_all-Reachable p [] r = r
  purge_all-Reachable p ((id, set) ∷ swept) r =
      purge_all-Reachable (purge_tokens p id) swept (purge_tokens-Reachable p id r)

  pub sweep-Reachable :
      (p : ProxyState) (now : Instant)
      → Reachable c p
      → Reachable c (State.sweep_expired_sessions p now).0
  unfolding State.sweep_expired_sessions
  sweep-Reachable p now r =
      purge_all-Reachable
        (record p { upstream_tokens = (Upstream.sweep_expired p.upstream_tokens now).0 })
        (Upstream.sweep_expired p.upstream_tokens now).1
        (unfold step in then_step r (sweeps_sessions now))

  pub mint_token_pair-Reachable :
      (p : ProxyState) (client_id upstream_id : Bytes) (ttl : Duration) (wants_refresh : Bool)
      (m : MintReads)
      → Reachable c p
      → Reachable c (mint_token_pair c p client_id upstream_id ttl wants_refresh m).0
  unfolding mint_token_pair mint_refresh
  mint_token_pair-Reachable p client_id upstream_id ttl wants_refresh m r =
      let made : Reachable c (record p {
        tokens =
            (Tokens.mint c p.tokens client_id upstream_id ttl m.access_rng m.access_at m.access).0;
      }) =
        (unfold step in
          then_step r (mints_token client_id upstream_id ttl m.access_rng m.access_at m.access)) in
      let paired : Reachable c (record p {
        tokens =
            (Tokens.mint c p.tokens client_id upstream_id ttl m.access_rng m.access_at m.access).0;
        refresh_tokens =
            (Refresh.mint c p.refresh_tokens client_id upstream_id m.refresh_rng m.refresh_at
              m.refresh).0;
      }) =
        (unfold step in
          then_step made
            (mints_refresh client_id upstream_id m.refresh_rng m.refresh_at m.refresh)) in
      ground (arith, made, paired)
