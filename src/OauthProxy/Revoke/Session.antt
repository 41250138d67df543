-- ===== src/OauthProxy/Revoke/Session.antt =====
-- What revoking a token does to it, to its session and to Redmine.
use ruprogress_mcp.OauthProxy.Tokens.Resolution.{resolve-take}
use ruprogress_mcp.OauthProxy.State.Gone.{
  redeem_absent, resolve-take_session, take_session-absent, take_session-gone,
  take_session-unresolved,
}
use ruprogress_mcp.OauthProxy.State.{ProxyState, take_session}
use ruprogress_mcp.OauthProxy.Flow.Proxy.{kill_session-proxy, kill_session-revoked}
use ruprogress_mcp.Std.Text.{starts_with}
use ruprogress_mcp.Std.Map.{Distinct, get-remove, remove-Distinct}
use ruprogress_mcp.Std.Clock.{Instant}
use ruprogress_mcp.OauthProxy.Upstream.{UpstreamTokenSet}
use ruprogress_mcp.OauthProxy.Tokens.{TokenEntry}
use ruprogress_mcp.OauthProxy.Refresh.{RefreshOutcome, RefreshOwner}
use ruprogress_mcp.OauthProxy.Crypto.{Crypto, digest}
use ruprogress_mcp.Base.{
  Bytes, [], arith, bytes_eq, none, some, true, ◌++◌, ◌∷◌, ◌≡◌, ◌≢◌, ==_refl, false,
}
use ruprogress_mcp.Std.Map
use ruprogress_mcp.OauthProxy.Tokens
use ruprogress_mcp.OauthProxy.Refresh
use ruprogress_mcp.OauthProxy.Upstream
use ruprogress_mcp.OauthProxy.Revoke.{
  access_token_prefix, refresh_token_prefix, revoke_token, revoke_access, revoke_refresh,
}
use ruprogress_mcp.OauthProxy.Flow.{Flow, kill_session, revocation}

take_session-set :
    (p : ProxyState) (upstream_id : Bytes) (set : UpstreamTokenSet) (deadline : Instant)
    → Map.get upstream_id p.upstream_tokens ≡ some (set, deadline)
    → (take_session p upstream_id).1 ≡ some set
unfolding take_session Upstream.take
take_session-set p upstream_id set deadline there = ground arith

prefixes_differ :
    (token : Bytes)
    → starts_with token refresh_token_prefix ≡ true
    → starts_with token access_token_prefix ≡ false
unfolding starts_with
prefixes_differ [] h = cc
prefixes_differ (a ∷ []) h = ground (arith, h)
prefixes_differ (a ∷ b ∷ []) h = ground (arith, h)
prefixes_differ (a ∷ b ∷ d ∷ []) h = ground (arith, h)
prefixes_differ (a ∷ b ∷ d ∷ e ∷ []) h = ground (arith, h)
prefixes_differ (a ∷ b ∷ d ∷ e ∷ x ∷ token) h = ground (arith, h)

module _ (c : Crypto) (f : Flow) (token : Bytes) where
  -- Revoking an access token that is held: it no longer resolves, its session is gone, no access
  -- token that still resolves names that session, and the session is revoked upstream, once, by
  -- its refresh token if it has one, else by its access token.
  pub revoke_token-access :
      (entry : TokenEntry) (at : Instant) (set : UpstreamTokenSet) (deadline : Instant)
      (another : Bytes) (now : Instant) (owner : Bytes)
      → starts_with token access_token_prefix ≡ true
      → Distinct f.proxy.tokens
      → Map.get (digest c token) f.proxy.tokens ≡ some (entry, at)
      → Map.get entry.upstream_id f.proxy.upstream_tokens ≡ some (set, deadline)
      → let g = revoke_token c f token in
        ((Tokens.resolve c g.proxy.tokens token now).1 ≡ none)
        × (Map.get entry.upstream_id g.proxy.upstream_tokens ≡ none)
        × ((Tokens.resolve c g.proxy.tokens another now).1
            ≢ some (record { upstream_id = entry.upstream_id; client_id = owner }))
        × (g.revoked ≡ f.revoked ++ revocation set ∷ [])
  unfolding revoke_token revoke_access
  revoke_token-access entry at set deadline another now owner prefixed d found there =
      let taken = record f {
        proxy = record f.proxy { tokens = (Tokens.take c f.proxy.tokens token).0 };
      } in
      let killed = kill_session-proxy c taken entry.upstream_id in
      let done : revoke_token c f token ≡ kill_session c taken entry.upstream_id =
        (unfold Tokens.take in ground (arith, prefixed, found)) in
      rw (done, killed)
        (
          take_session-unresolved taken.proxy entry.upstream_id c token now
              (unfold Tokens.take in remove-Distinct (digest c token) f.proxy.tokens d)
              (resolve-take c f.proxy.tokens token now),
          take_session-gone taken.proxy entry.upstream_id,
          resolve-take_session c taken.proxy entry.upstream_id another now owner
              (ground (arith, there)),
          ground (
            arith,
            there,
            kill_session-revoked c taken entry.upstream_id,
            take_session-set taken.proxy entry.upstream_id set deadline,
          ),
        )

  -- Revoking a refresh token that is held: it no longer redeems, its session is gone, no access
  -- token that still resolves names that session, and the session is revoked upstream, once.
  pub revoke_token-refresh :
      (held : RefreshOwner) (at : Instant) (set : UpstreamTokenSet) (deadline : Instant)
      (another : Bytes) (now later : Instant) (owner : Bytes) (client_id id : Bytes)
      → starts_with token refresh_token_prefix ≡ true
      → Map.get (digest c token) f.proxy.refresh_tokens.current ≡ some (held, at)
      → Map.get held.upstream_id f.proxy.upstream_tokens ≡ some (set, deadline)
      → let g = revoke_token c f token in
        ((Refresh.redeem c g.proxy.refresh_tokens token now later).1
          ≢ RefreshOutcome.ok client_id id)
        × (Map.get held.upstream_id g.proxy.upstream_tokens ≡ none)
        × ((Tokens.resolve c g.proxy.tokens another now).1
            ≢ some (record { upstream_id = held.upstream_id; client_id = owner }))
        × (g.revoked ≡ f.revoked ++ revocation set ∷ [])
  unfolding revoke_token revoke_refresh
  revoke_token-refresh held at set deadline another now later owner client_id id prefixed found
        there =
      let taken = record f {
        proxy = record f.proxy { refresh_tokens = (Refresh.take c f.proxy.refresh_tokens token).0 };
      } in
      let killed = kill_session-proxy c taken held.upstream_id in
      let done : revoke_token c f token ≡ kill_session c taken held.upstream_id =
        (unfold Refresh.take in ground (arith, prefixes_differ token prefixed, prefixed, found)) in
      rw (done, killed)
        (
          redeem_absent c (take_session taken.proxy held.upstream_id).0.refresh_tokens token now
              later client_id id
              (take_session-absent taken.proxy held.upstream_id (digest c token) (
                unfold Refresh.take in
                ground (
                  arith,
                  get-remove (digest c token) (digest c token) f.proxy.refresh_tokens.current,
                  ==_refl (digest c token),
                ))),
          take_session-gone taken.proxy held.upstream_id,
          resolve-take_session c taken.proxy held.upstream_id another now owner
              (ground (arith, there)),
          ground (
            arith,
            there,
            kill_session-revoked c taken held.upstream_id,
            take_session-set taken.proxy held.upstream_id set deadline,
          ),
        )

  -- A token that is of neither kind, or that is not held, revokes nothing and ends no session.
  pub revoke_token-unknown :
      Map.get (digest c token) f.proxy.tokens ≡ none
      → Map.get (digest c token) f.proxy.refresh_tokens.current ≡ none
      → let g = revoke_token c f token in
        (g.revoked ≡ f.revoked)
        × (g.proxy.upstream_tokens ≡ f.proxy.upstream_tokens)
        × (g.cache ≡ f.cache)
  unfolding revoke_token revoke_access revoke_refresh Tokens.take Refresh.take
  revoke_token-unknown absent gone = ground (arith, absent, gone)
