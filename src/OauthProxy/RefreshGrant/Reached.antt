-- ===== src/OauthProxy/RefreshGrant/Reached.antt =====
-- A refresh, before and after the await, is a sequence of the stores' operations.
use ruprogress_mcp.Std.Clock.{Duration, saturating_duration_since}
use ruprogress_mcp.RedmineClient.Model.{OauthToken}
use ruprogress_mcp.OauthProxy.Upstream.{UpstreamTokenSet}
use ruprogress_mcp.OauthProxy.Flow.Reached.{mint_token_pair-Reachable, take_session-Reachable}
use ruprogress_mcp.OauthProxy.Flow.Proxy.{drop_session-proxy, kill_session-proxy}
use ruprogress_mcp.OauthProxy.Crypto.{Crypto, digest}
use ruprogress_mcp.Base.{Bytes, Option, arith, bytes_eq, is_some, none, some}
use ruprogress_mcp.OauthProxy.State.Reachable.{
  Reachable, then_step, step, touches, redeems_refresh, drops_guard, discards, retires,
  replaces_session,
}
use ruprogress_mcp.OauthProxy.Refresh
use ruprogress_mcp.OauthProxy.Refresh.{RefreshOutcome}
use ruprogress_mcp.OauthProxy.Registry
use ruprogress_mcp.OauthProxy.Upstream
use ruprogress_mcp.OauthProxy.Flow.{Flow, mint_token_pair, revoke_upstream_and_purge}
use ruprogress_mcp.OauthProxy.RefreshGrant.{
  BeginReads, FinishReads, Pending, finally, discarded, begin_redeemed, begin_outcome,
  begin_refresh, rotate, vanish, replace_session, conclude_refresh, finish, with_refresh,
  with_upstream,
}

module _ (c : Crypto) where
  begin_redeemed-Reachable :
      (f : Flow) (token requested_client_id client_id upstream_id : Bytes) (t : BeginReads)
      → Reachable c f.proxy
      → Reachable c (begin_redeemed c f token requested_client_id client_id upstream_id t).0.proxy
  unfolding begin_redeemed finally
  begin_redeemed-Reachable f token requested_client_id client_id upstream_id t r =
      let key = digest c token in
      let restored : Reachable c
          (record f.proxy { refresh_tokens = Refresh.drop_guard f.proxy.refresh_tokens key }) =
        (unfold step in then_step r (drops_guard key)) in
      let touched : Reachable c
          (record f.proxy { registry = Registry.touch f.proxy.registry client_id t.touch_at }) =
        (unfold step in then_step r (touches client_id t.touch_at)) in
      let gone : Reachable c (record f.proxy {
        registry = Registry.touch f.proxy.registry client_id t.touch_at;
        refresh_tokens = Refresh.drop_guard (Refresh.discard c f.proxy.refresh_tokens token) key;
      }) =
        (unfold step in then_step (then_step touched (discards token)) (drops_guard key)) in
      ground (arith, restored, touched, gone)

  begin_outcome-Reachable :
      (f : Flow) (token requested_client_id : Bytes) (outcome : RefreshOutcome) (t : BeginReads)
      → Reachable c f.proxy
      → Reachable c (begin_outcome c f token requested_client_id outcome t).0.proxy
  unfolding begin_outcome
  begin_outcome-Reachable f token requested_client_id RefreshOutcome.invalid t r = r
  begin_outcome-Reachable f token requested_client_id (RefreshOutcome.reused upstream_id) t r =
      rw (kill_session-proxy c f upstream_id) (take_session-Reachable c f.proxy upstream_id r)
  begin_outcome-Reachable f token requested_client_id (RefreshOutcome.ok client_id upstream_id) t
        r =
      begin_redeemed-Reachable f token requested_client_id client_id upstream_id t r

  -- Whatever a refresh answers before it asks Redmine, it takes a reachable state to a reachable
  -- one.
  pub begin_refresh-Reachable :
      (f : Flow) (token requested_client_id : Bytes) (t : BeginReads)
      → Reachable c f.proxy
      → Reachable c (begin_refresh c f token requested_client_id t).0.proxy
  unfolding begin_refresh
  begin_refresh-Reachable f token requested_client_id t r =
      let redeemed = Refresh.redeem c f.proxy.refresh_tokens token t.redeem_at t.retired_at in
      begin_outcome-Reachable (with_refresh f redeemed.0) token requested_client_id redeemed.1 t
        (unfold step in then_step r (redeems_refresh token t.redeem_at t.retired_at))

  rotate-Reachable :
      (f : Flow) (pending : Pending) (set : UpstreamTokenSet) (ttl : Duration) (t : FinishReads)
      → Reachable c f.proxy
      → Reachable c (rotate c f pending set ttl t).0.proxy
  unfolding rotate
  rotate-Reachable f pending set ttl t r =
      let made =
        mint_token_pair c f.proxy pending.client_id pending.upstream_id ttl (is_some set.refresh)
          t.pair in
      let reached =
        mint_token_pair-Reachable c f.proxy pending.client_id pending.upstream_id ttl
          (is_some set.refresh) t.pair r in
      let retired : Reachable c (record made.0 {
        refresh_tokens =
            Refresh.retire c made.0.refresh_tokens pending.token pending.upstream_id t.retire_at
              t.retire;
      }) =
        (unfold step in
          then_step reached (retires pending.token pending.upstream_id t.retire_at t.retire)) in
      ground (arith, reached, retired)

  discarded-Reachable :
      (f : Flow) (token : Bytes) → Reachable c f.proxy → Reachable c (discarded c f token).proxy
  unfolding step
  discarded-Reachable f token r = then_step r (discards token)

  replace_session-Reachable :
      (f : Flow) (pending : Pending) (set : UpstreamTokenSet) (t : FinishReads)
      → Reachable c f.proxy
      → Reachable c (replace_session c f pending set t).0.proxy
  unfolding replace_session vanish revoke_upstream_and_purge
  replace_session-Reachable f pending set t r =
      let ttl : Duration = saturating_duration_since set.expires_at t.ttl_at in
      let store =
        (Upstream.replace f.proxy.upstream_tokens pending.upstream_id set t.replace_at
          t.deadline).0 in
      let replaced : Reachable c (with_upstream f store).proxy =
        (unfold step in
          then_step r (replaces_session pending.upstream_id set t.replace_at t.deadline)) in
      ground (
        arith,
        rotate-Reachable (with_upstream f store) pending set ttl t replaced,
        discarded-Reachable (with_upstream f store) pending.token replaced,
      )

  conclude_refresh-Reachable :
      (f : Flow) (pending : Pending) (answer : Option OauthToken) (t : FinishReads)
      → Reachable c f.proxy
      → Reachable c (conclude_refresh c f pending answer t).0.proxy
  unfolding conclude_refresh
  conclude_refresh-Reachable f pending none t r =
      rw (drop_session-proxy c (discarded c f pending.token) pending.upstream_id) (
        take_session-Reachable c (discarded c f pending.token).proxy pending.upstream_id
          (discarded-Reachable f pending.token r))
  conclude_refresh-Reachable f pending (some token) t r = replace_session-Reachable f pending _ t r

  -- Whatever Redmine answers, the end of a refresh takes a reachable state to a reachable one.
  pub finish-Reachable :
      (f : Flow) (pending : Pending) (answer : Option OauthToken) (t : FinishReads)
      → Reachable c f.proxy
      → Reachable c (finish c f pending answer t).0.proxy
  unfolding finish finally
  finish-Reachable f pending answer t r =
      (unfold step in
        then_step (conclude_refresh-Reachable f pending answer t r)
          (drops_guard (digest c pending.token)))
