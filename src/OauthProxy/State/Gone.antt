-- ===== src/OauthProxy/State/Gone.antt =====
-- What taking a session cannot bring back.
use ruprogress_mcp.OauthProxy.Tokens.{TokenEntry}
use ruprogress_mcp.Std.Map.{Distinct, get-remove, get-retain-none, get-retain_passes}
use ruprogress_mcp.Std.Clock.{Instant}
use ruprogress_mcp.OauthProxy.Tokens.Resolution.{resolve-remove_by_upstream, resolve_iff}
use ruprogress_mcp.OauthProxy.State.{ProxyState, purge_tokens, take_session}
use ruprogress_mcp.OauthProxy.Refresh.{RefreshOutcome, RefreshOwner, RefreshStore}
use ruprogress_mcp.OauthProxy.Crypto.{Crypto, digest}
use ruprogress_mcp.Base.{
  ==_refl, Bytes, arith, bytes_eq, none, not, ◌==◌, ◌≡◌, ◌≢◌, is_some, some, true,
}
use ruprogress_mcp.Std.Map
use ruprogress_mcp.OauthProxy.Tokens
use ruprogress_mcp.OauthProxy.Upstream
use ruprogress_mcp.OauthProxy.Refresh
use ruprogress_mcp.OauthProxy.Refresh.Rotation.{redeem-active_iff}

module _ (p : ProxyState) (upstream_id : Bytes) where
  pub take_session-gone : Map.get upstream_id (take_session p upstream_id).0.upstream_tokens ≡ none
  unfolding take_session purge_tokens Upstream.take
  take_session-gone =
      ground (arith, get-remove upstream_id upstream_id p.upstream_tokens, ==_refl upstream_id)

  -- A token that did not resolve still does not.
  pub take_session-unresolved :
      (c : Crypto) (token : Bytes) (now : Instant)
      → Distinct p.tokens
      → (Tokens.resolve c p.tokens token now).1 ≡ none
      → (Tokens.resolve c (take_session p upstream_id).0.tokens token now).1 ≡ none
  unfolding take_session purge_tokens Upstream.take
  take_session-unresolved c token now d h =
      ground (arith, h, resolve-remove_by_upstream c p.tokens upstream_id token now d)

  -- A refresh token without an entry still has none.
  pub take_session-absent :
      (key : Bytes)
      → Map.get key p.refresh_tokens.current ≡ none
      → Map.get key (take_session p upstream_id).0.refresh_tokens.current ≡ none
  unfolding take_session purge_tokens Upstream.take Refresh.remove_by_upstream
  take_session-absent key h = ground (
    arith,
    h,
    get-retain-none
        (λ (_ : Bytes) (e : RefreshOwner × Instant). not (e.0.upstream_id == upstream_id)) key
        p.refresh_tokens.current,
  )

-- Without an entry nothing is redeemed.
pub redeem_absent :
    (c : Crypto) (s : RefreshStore) (token : Bytes) (now later : Instant) (client_id id : Bytes)
    → Map.get (digest c token) s.current ≡ none
    → (Refresh.redeem c s token now later).1 ≢ RefreshOutcome.ok client_id id
redeem_absent c s token now later client_id id gone won =
    let (at, found, lt) = (redeem-active_iff c s token now later client_id id).0 won in
    ground (arith, gone, found)

-- No access token that resolves after a session was taken names that session.
pub resolve-take_session :
    (c : Crypto) (p : ProxyState) (upstream_id token : Bytes) (now : Instant) (client_id : Bytes)
    → is_some (Map.get upstream_id p.upstream_tokens) ≡ true
    → (Tokens.resolve c (take_session p upstream_id).0.tokens token now).1
      ≢ some (record { upstream_id = upstream_id; client_id = client_id })
unfolding take_session purge_tokens Upstream.take Tokens.remove_by_upstream
resolve-take_session c p upstream_id token now client_id there h =
    let entry : TokenEntry = record { upstream_id = upstream_id; client_id = client_id } in
    let (at, found, lt) =
      (resolve_iff c (take_session p upstream_id).0.tokens token now entry).0 h in
    ground (
      arith,
      there,
      ==_refl upstream_id,
      get-retain_passes
          (λ (_ : Bytes) (e : TokenEntry × Instant). not (e.0.upstream_id == upstream_id))
          (digest c token) (entry, at) p.tokens (ground (arith, found, there)),
    )
