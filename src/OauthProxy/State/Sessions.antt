-- ===== src/OauthProxy/State/Sessions.antt =====
-- A session goes together with the proxy tokens that stand for it.
use ruprogress_mcp.Std.Map.{Distinct, get-remove, get-retain_passes}
use ruprogress_mcp.Std.Clock.{Instant}
use ruprogress_mcp.OauthProxy.Upstream.{UpstreamTokenSet}
use ruprogress_mcp.OauthProxy.Tokens.Resolution.{resolve-remove_by_upstream}
use ruprogress_mcp.OauthProxy.Tokens.{TokenEntry}
use ruprogress_mcp.OauthProxy.State.{ProxyState, purge_tokens, take_session}
use ruprogress_mcp.OauthProxy.Registry.Eviction.{IsRegistry}
use ruprogress_mcp.OauthProxy.Refresh.{RefreshOutcome, RefreshOwner}
use ruprogress_mcp.OauthProxy.Crypto.{Crypto, digest}
use ruprogress_mcp.OauthProxy.Capacity.{IsStore}
use ruprogress_mcp.Base.{
  ==_refl, Bool, Bytes, Option, arith, bytes_eq, if◌then◌else◌, none, some, ◌==◌, ◌>>=◌, ◌≡◌, ◌≢◌,
  not,
}
use ruprogress_mcp.Std.Map
use ruprogress_mcp.OauthProxy.Tokens
use ruprogress_mcp.OauthProxy.Refresh
use ruprogress_mcp.OauthProxy.Refresh.Rotation.{redeem-active_iff}
use ruprogress_mcp.OauthProxy.Refresh.{active}
use ruprogress_mcp.OauthProxy.Upstream

pub record IsProxy (p : ProxyState) : Type 0 where
  pub registry : IsRegistry p.registry
  pub transactions : IsStore p.transactions
  pub pending : IsStore p.codes.pending
  pub consumed : IsStore p.codes.consumed
  pub tokens : IsStore p.tokens
  pub upstream_tokens : IsStore p.upstream_tokens
  pub current : IsStore p.refresh_tokens.current
  pub retired : IsStore p.refresh_tokens.retired

-- Of a token, unless its session is among those that go.
abbrev pub unless : (Bytes → Bool) → Option TokenEntry → Option TokenEntry
unless gone found = found >>= λ entry. if gone entry.upstream_id then none else some entry

redeem-purged :
    (p : ProxyState) (upstream_id : Bytes) (c : Crypto) (set : UpstreamTokenSet) (token : Bytes)
    (now later : Instant) (client_id : Bytes)
    → (take_session p upstream_id).1 ≡ some set
    → (Refresh.redeem c (take_session p upstream_id).0.refresh_tokens token now later).1
      ≢ RefreshOutcome.ok client_id upstream_id
unfolding take_session Upstream.take Refresh.remove_by_upstream
redeem-purged p upstream_id c set token now later client_id h redeemed =
    let (at, found, lt) =
      (redeem-active_iff c (take_session p upstream_id).0.refresh_tokens token now later client_id
          upstream_id).0
        redeemed in
    let entry : RefreshOwner × Instant =
      (record { client_id = client_id; upstream_id = upstream_id; state = active }, at) in
    ground (
      arith,
      ==_refl upstream_id,
      get-retain_passes
          (λ (_ : Bytes) (e : RefreshOwner × Instant). not (e.0.upstream_id == upstream_id))
          (digest c token) entry p.refresh_tokens.current (ground (arith, found)),
    )

module _ (c : Crypto) (p : ProxyState) (upstream_id : Bytes) where
  -- Once a session is taken, it is gone, none of its access tokens resolves and no refresh token
  -- redeems for it; tokens of other sessions resolve as before. No key may occur twice.
  pub take_session_lem :
      (set : UpstreamTokenSet) (token secret : Bytes) (now later : Instant) (client_id : Bytes)
      → Distinct p.tokens
      → (take_session p upstream_id).1 ≡ some set
      → (Map.get upstream_id (take_session p upstream_id).0.upstream_tokens ≡ none)
        × ((Tokens.resolve c (take_session p upstream_id).0.tokens token now).1
            ≡ unless (λ id. id == upstream_id) (Tokens.resolve c p.tokens token now).1)
        × ((Refresh.redeem c (take_session p upstream_id).0.refresh_tokens secret now later).1
            ≢ RefreshOutcome.ok client_id upstream_id)
  unfolding take_session purge_tokens Upstream.take Refresh.remove_by_upstream
  take_session_lem set token secret now later client_id d h = (
    ground (arith, get-remove upstream_id upstream_id p.upstream_tokens, ==_refl upstream_id),
    ground (arith, resolve-remove_by_upstream c p.tokens upstream_id token now d),
    redeem-purged p upstream_id c set secret now later client_id h,
  )

  -- Without the session nothing changes.
  pub take_session-none :
      Map.get upstream_id p.upstream_tokens ≡ none
      → ((take_session p upstream_id).1 ≡ none)
        × ((take_session p upstream_id).0.tokens ≡ p.tokens)
        × ((take_session p upstream_id).0.refresh_tokens ≡ p.refresh_tokens)
  unfolding take_session Upstream.take
  take_session-none h = ground arith
