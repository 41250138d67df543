-- ===== src/OauthProxy/RefreshGrant/Vanished.antt =====
-- endpoints.rs, `refresh_token_grant`: a session that another request ends while Redmine answers.
use ruprogress_mcp.Std.Map.{get-remove, get-retain_passes}
use ruprogress_mcp.Std.Clock.{Instant, from_secs}
use ruprogress_mcp.RedmineClient.Model.{OauthToken}
use ruprogress_mcp.OauthProxy.State.{ProxyState, take_session}
use ruprogress_mcp.OauthProxy.State.Gone.{take_session-gone, resolve-take_session}
use ruprogress_mcp.OauthProxy.Upstream.Deadline.{replace_lost}
use ruprogress_mcp.OauthProxy.Upstream.{UpstreamTokenSet}
use ruprogress_mcp.OauthProxy.Refresh.Rotation.{redeem-active_iff}
use ruprogress_mcp.OauthProxy.Refresh.{RefreshOutcome, RefreshOwner, active}
use ruprogress_mcp.OauthProxy.RefreshGrant.Rotation.{drop_guard_absent, finish_vanished}
use ruprogress_mcp.OauthProxy.RefreshGrant.{
  FinishReads, Pending, conclude_refresh, finally, finish, replace_session, scopes_of, secs_or_hour,
  vanish,
}
use ruprogress_mcp.OauthProxy.Flow.Proxy.{kill_session-proxy, kill_session-revoked}
use ruprogress_mcp.OauthProxy.Flow.{
  Flow, error, kill_session, revocation, revoke_upstream_and_purge,
}
use ruprogress_mcp.OauthProxy.Crypto.{Crypto, digest}
use ruprogress_mcp.OauthProxy.Capacity.{expires_after}
use ruprogress_mcp.Base.{
  ==_refl, Bytes, [], ap, arith, bytes_eq, codes, inl, is_some, none, not, some, ◌++◌, ◌==◌, ◌∙◌,
  ◌∷◌, ◌≡◌, ◌≢◌, sym,
}
use ruprogress_mcp.Std.Map
use ruprogress_mcp.OauthProxy.Tokens
use ruprogress_mcp.OauthProxy.Upstream
use ruprogress_mcp.OauthProxy.Refresh

-- What Redmine has just issued.
abbrev pub issued : Pending → OauthToken → FinishReads → UpstreamTokenSet
issued pending token t = record {
  access = token.access_token;
  refresh = token.refresh_token;
  granted_scopes = scopes_of token pending.granted_scopes;
  expires_at = expires_after t.expiry (from_secs (secs_or_hour token.expires_in));
}

-- Discarding one token redeems no other for a session that was taken.
redeem-discard :
    (c : Crypto) (p : ProxyState) (upstream_id : Bytes) (entry : UpstreamTokenSet × Instant)
    (presented token : Bytes) (now later : Instant) (client_id : Bytes)
    → Map.get upstream_id p.upstream_tokens ≡ some entry
    → (Refresh.redeem c
        (Refresh.discard c (take_session p upstream_id).0.refresh_tokens presented)
        token
        now
        later).1
      ≢ RefreshOutcome.ok client_id upstream_id
unfolding take_session Upstream.take Refresh.remove_by_upstream Refresh.discard
redeem-discard c p upstream_id entry presented token now later client_id there won =
    let kept = (take_session p upstream_id).0.refresh_tokens in
    let (at, found, lt) =
      (redeem-active_iff c (Refresh.discard c kept presented) token now later client_id
          upstream_id).0
        won in
    let owned : RefreshOwner × Instant =
      (record { client_id = client_id; upstream_id = upstream_id; state = active }, at) in
    ground (
      arith,
      found,
      there,
      ==_refl upstream_id,
      get-remove (digest c token) (digest c presented) kept.current,
      get-retain_passes
          (λ (_ : Bytes) (e : RefreshOwner × Instant). not (e.0.upstream_id == upstream_id))
          (digest c token) owned p.refresh_tokens.current,
    )

module _ (c : Crypto) (f : Flow) (pending : Pending) (t : FinishReads) where
  kill_revoked :
      (set : UpstreamTokenSet) (deadline : Instant)
      → Map.get pending.upstream_id f.proxy.upstream_tokens ≡ some (set, deadline)
      → (kill_session c f pending.upstream_id).revoked ≡ f.revoked ++ revocation set ∷ []
  unfolding take_session Upstream.take
  kill_revoked set deadline there =
      ground (arith, there, kill_session-revoked c f pending.upstream_id)

  finish-discard :
      (token : OauthToken)
      → Map.get pending.upstream_id f.proxy.upstream_tokens ≡ none
      → (finish c f pending (some token) t).0.proxy.refresh_tokens
        ≡ Refresh.discard c f.proxy.refresh_tokens pending.token
  unfolding finish conclude_refresh replace_session vanish finally revoke_upstream_and_purge
      Refresh.discard
  finish-discard token gone =
      let key : Bytes = digest c pending.token in
      ground (
        arith,
        replace_lost f.proxy.upstream_tokens pending.upstream_id (issued pending token t)
            t.replace_at t.deadline (inl gone),
        drop_guard_absent (Refresh.discard c f.proxy.refresh_tokens pending.token) key
            (ground (arith, get-remove key key f.proxy.refresh_tokens.current, ==_refl key)),
      )

module _ (c : Crypto) (f : Flow) (pending : Pending) (t : FinishReads) where
  -- A session that is killed while Redmine answers its refresh stays dead, though Redmine granted
  -- the refresh: the request fails, the session is not stored again, no access token resolves to
  -- it and no refresh token redeems for it, and both the session's tokens and those that Redmine
  -- just issued are revoked there, in this order.
  pub finish-kill_session :
      (set : UpstreamTokenSet) (deadline : Instant) (token : OauthToken) (access secret : Bytes)
      (now later : Instant) (client_id : Bytes)
      → Map.get pending.upstream_id f.proxy.upstream_tokens ≡ some (set, deadline)
      → let ended = finish c (kill_session c f pending.upstream_id) pending (some token) t in
        (ended.1 ≡ error 400 (codes "invalid_grant"))
        × (Map.get pending.upstream_id ended.0.proxy.upstream_tokens ≡ none)
        × ((Tokens.resolve c ended.0.proxy.tokens access now).1
            ≢ some (record { upstream_id = pending.upstream_id; client_id = client_id }))
        × ((Refresh.redeem c ended.0.proxy.refresh_tokens secret now later).1
            ≢ RefreshOutcome.ok client_id pending.upstream_id)
        × (ended.0.revoked
            ≡ (f.revoked ++ revocation set ∷ []) ++ revocation (issued pending token t) ∷ [])
  finish-kill_session set deadline token access secret now later client_id there =
      let killed = kill_session c f pending.upstream_id in
      let proxy = kill_session-proxy c f pending.upstream_id in
      let gone : Map.get pending.upstream_id killed.proxy.upstream_tokens ≡ none =
        ap (λ p. Map.get pending.upstream_id p.upstream_tokens) proxy
        ∙ take_session-gone f.proxy pending.upstream_id in
      let discard_only = finish-discard c killed pending t token gone in
      let (refused, sessions, accesses, revoked) = finish_vanished c killed pending t token gone in
      (
        refused,
        ap (Map.get pending.upstream_id) sessions ∙ gone,
        (λ h.
            resolve-take_session c f.proxy pending.upstream_id access now client_id
              (ap is_some there)
              (ap (λ p. (Tokens.resolve c p.tokens access now).1) (sym proxy)
                ∙ ap (λ s. (Tokens.resolve c s access now).1) (sym accesses)
                ∙ h)),
        (λ h.
            redeem-discard c f.proxy pending.upstream_id (set, deadline) pending.token secret now
              later client_id there
              (ap
                  (λ p.
                    (Refresh.redeem c (Refresh.discard c p.refresh_tokens pending.token) secret now
                      later).1)
                  (sym proxy)
                ∙ ap (λ s. (Refresh.redeem c s secret now later).1) (sym (discard_only))
                ∙ h)),
        revoked
            ∙ ap (λ x. x ++ revocation (issued pending token t) ∷ [])
                (kill_revoked c f pending t set deadline there),
      )
