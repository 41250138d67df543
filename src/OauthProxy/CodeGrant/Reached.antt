-- ===== src/OauthProxy/CodeGrant/Reached.antt =====
-- A code grant is a sequence of the stores' operations.
use ruprogress_mcp.Std.Clock.{Duration, Instant, saturating_duration_since}
use ruprogress_mcp.OauthProxy.Upstream.{UpstreamTokenSet}
use ruprogress_mcp.OauthProxy.State.{ProxyState}
use ruprogress_mcp.OauthProxy.Flow.Reached.{
  mint_token_pair-Reachable, sweep-Reachable, take_session-Reachable,
}
use ruprogress_mcp.OauthProxy.Flow.Proxy.{drop_session-proxy}
use ruprogress_mcp.OauthProxy.Crypto.{Crypto, digest}
use ruprogress_mcp.Base.{
  Bytes, Option, Option-cases, arith, bytes_eq, inl, inr, is_some, none, some,
}
use ruprogress_mcp.OauthProxy.State.Reachable.{
  Reachable, then_step, step, looks_up, claims, deletes_token, deletes_refresh, touches,
  inserts_session, marks_consumed,
}
use ruprogress_mcp.OauthProxy.Codes
use ruprogress_mcp.OauthProxy.Codes.{RedeemOutcome}
use ruprogress_mcp.OauthProxy.Registry
use ruprogress_mcp.OauthProxy.Flow
use ruprogress_mcp.OauthProxy.Flow.{Flow, mint_token_pair}
use ruprogress_mcp.OauthProxy.CodeGrant.{
  CodeGrantReads, delete_minted, contain_replay, issue, store_session, open_session, conclude_grant,
  grant_code,
}

module _ (c : Crypto) where
  redeem_code-Reachable :
      (p : ProxyState) (code client_id redirect_uri code_verifier : Bytes) (now later : Instant)
      → Reachable c p
      → Reachable c (record p {
        codes = (Codes.redeem c p.codes code client_id redirect_uri code_verifier now later).0;
      })
  unfolding Codes.redeem Codes.conclude
  redeem_code-Reachable p code client_id redirect_uri code_verifier now later r =
      let key = digest c code in
      let looked : Reachable c (record p { codes = (Codes.look_up p.codes key now).0 }) =
        (unfold step in then_step r (looks_up key now)) in
      let claimed : Reachable c
          (record p { codes = (Codes.claim (Codes.look_up p.codes key now).0 key).0 }) =
        (unfold step in then_step looked (claims key)) in
      elim (Option-cases (Codes.look_up p.codes key now).1) [
        | inl unknown ↦ ground (arith, looked, unknown)
        | inr (entry, known) ↦ ground (arith, looked, claimed, known)
      ]

  delete_minted-Reachable :
      (p : ProxyState) (token_digest : Bytes) (refresh_digest : Option Bytes)
      → Reachable c p
      → Reachable c (delete_minted p token_digest refresh_digest)
  unfolding delete_minted step
  delete_minted-Reachable p token_digest none r = then_step r (deletes_token token_digest)
  delete_minted-Reachable p token_digest (some key) r =
      then_step (then_step r (deletes_token token_digest)) (deletes_refresh key)

  contain_replay-Reachable :
      (f : Flow) (token_digest : Bytes) (refresh_digest : Option Bytes) (upstream_id : Bytes)
      → Reachable c f.proxy
      → Reachable c (contain_replay c f token_digest refresh_digest upstream_id).0.proxy
  unfolding contain_replay
  contain_replay-Reachable f token_digest refresh_digest upstream_id r =
      let deleted = delete_minted f.proxy token_digest refresh_digest in
      rw (drop_session-proxy c (record f { proxy = deleted }) upstream_id) (
        take_session-Reachable c deleted upstream_id
          (delete_minted-Reachable f.proxy token_digest refresh_digest r))

  issue-Reachable :
      (f : Flow) (code client_id : Bytes) (upstream : UpstreamTokenSet) (upstream_id : Bytes)
      (t : CodeGrantReads)
      → Reachable c f.proxy
      → Reachable c (issue c f code client_id upstream upstream_id t).0.proxy
  unfolding issue
  issue-Reachable f code client_id upstream upstream_id t r =
      let ttl : Duration = saturating_duration_since upstream.expires_at t.ttl_at in
      let made =
        mint_token_pair c f.proxy client_id upstream_id ttl (is_some upstream.refresh) t.pair in
      let reached =
        mint_token_pair-Reachable c f.proxy client_id upstream_id ttl (is_some upstream.refresh)
          t.pair r in
      elim (Option-cases made.1) [
        | inl failed ↦ ground (arith, failed, take_session-Reachable c made.0 upstream_id reached)
        | inr (minted, paired) ↦
            let marked : Reachable c (record made.0 {
              codes =
                  Codes.mark_consumed c made.0.codes code minted.access_digest minted.refresh_digest
                    upstream_id t.consumed_at t.consumed;
            }) =
              (unfold step in
                then_step reached (
                  marks_consumed code minted.access_digest minted.refresh_digest upstream_id
                    t.consumed_at t.consumed)) in
            ground (arith, paired, marked)
      ]

  store_session-Reachable :
      (f : Flow) (client_id : Bytes) (upstream : UpstreamTokenSet) (t : CodeGrantReads)
      → Reachable c f.proxy
      → Reachable c (store_session c f client_id upstream t).0.proxy
  unfolding store_session Flow.sweep_expired_sessions
  store_session-Reachable f client_id upstream t r =
      let touched : Reachable c
          (record f.proxy { registry = Registry.touch f.proxy.registry client_id t.touch_at }) =
        (unfold step in then_step r (touches client_id t.touch_at)) in
      let swept =
        sweep-Reachable c
          (record f.proxy { registry = Registry.touch f.proxy.registry client_id t.touch_at })
          t.sweep_at touched in
      (unfold step in
        then_step swept (inserts_session upstream t.session_rng t.deadline t.insert_at))

  open_session-Reachable :
      (f : Flow) (code client_id : Bytes) (upstream : UpstreamTokenSet) (t : CodeGrantReads)
      → Reachable c f.proxy
      → Reachable c (open_session c f code client_id upstream t).0.proxy
  unfolding open_session
  open_session-Reachable f code client_id upstream t r =
      let reached = store_session-Reachable f client_id upstream t r in
      elim (Option-cases (store_session c f client_id upstream t).1) [
        | inl full ↦ ground (arith, full, reached)
        | inr (upstream_id, stored) ↦ ground (
          arith,
          stored,
          issue-Reachable (store_session c f client_id upstream t).0 code client_id upstream
              upstream_id t reached,
        )
      ]

  conclude_grant-Reachable :
      (f : Flow) (code client_id : Bytes) (outcome : RedeemOutcome) (t : CodeGrantReads)
      → Reachable c f.proxy
      → Reachable c (conclude_grant c f code client_id outcome t).0.proxy
  unfolding conclude_grant
  conclude_grant-Reachable f code client_id RedeemOutcome.invalid t r = r
  conclude_grant-Reachable f code client_id RedeemOutcome.mismatch t r = r
  conclude_grant-Reachable f code client_id (RedeemOutcome.replayed token_digest refresh_digest id)
        t r =
      contain_replay-Reachable f token_digest refresh_digest id r
  conclude_grant-Reachable f code client_id (RedeemOutcome.ok upstream) t r =
      open_session-Reachable f code client_id upstream t r

  -- Whatever a code grant answers, it takes a reachable state to a reachable one.
  pub grant_code-Reachable :
      (f : Flow) (code redirect_uri client_id code_verifier : Bytes) (t : CodeGrantReads)
      → Reachable c f.proxy
      → Reachable c (grant_code c f code redirect_uri client_id code_verifier t).0.proxy
  unfolding grant_code
  grant_code-Reachable f code redirect_uri client_id code_verifier t r =
      let redeemed =
        redeem_code-Reachable f.proxy code client_id redirect_uri code_verifier t.redeem_at
          t.replay_at r in
      let outcome =
        Codes.redeem c f.proxy.codes code client_id redirect_uri code_verifier t.redeem_at
          t.replay_at in
      conclude_grant-Reachable (record f { proxy = record f.proxy { codes = outcome.0 } }) code
        client_id outcome.1 t redeemed
