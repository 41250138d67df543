-- ===== src/OauthProxy/Flow/Minting.antt =====
-- What `mint_token_pair` adds to the stores.
use ruprogress_mcp.Std.Clock.{Duration, Instant}
use ruprogress_mcp.OauthProxy.Upstream.{refresh_ttl}
use ruprogress_mcp.OauthProxy.Tokens.Resolution.{resolve-mint}
use ruprogress_mcp.OauthProxy.State.{ProxyState}
use ruprogress_mcp.OauthProxy.Refresh.Rotation.{redeem-mint_active}
use ruprogress_mcp.OauthProxy.Refresh.{RefreshOutcome}
use ruprogress_mcp.OauthProxy.Flow.{
  MintReads, MintedPair, mint_refresh, mint_token_pair, with_access,
}
use ruprogress_mcp.OauthProxy.Crypto.{Crypto}
use ruprogress_mcp.OauthProxy.Capacity.{expires_after}
use ruprogress_mcp.Base.{
  Bool, Bytes, arith, bytes_eq, is_some, some, ◌<◌, ◌≡◌, Option-cases, inl, inr,
}
use ruprogress_mcp.OauthProxy.Tokens
use ruprogress_mcp.OauthProxy.Refresh

module _ (c : Crypto) (p : ProxyState) (client_id upstream_id : Bytes) (ttl : Duration)
    (wants_refresh : Bool) (m : MintReads) where
  -- Nothing but the two token stores changes.
  pub mint_token_pair-frame :
      ((mint_token_pair c p client_id upstream_id ttl wants_refresh m).0.upstream_tokens
        ≡ p.upstream_tokens)
      × ((mint_token_pair c p client_id upstream_id ttl wants_refresh m).0.codes ≡ p.codes)
  unfolding mint_token_pair mint_refresh
  mint_token_pair-frame = ground arith

  -- The access token resolves to the session and the client until its end.
  pub resolve-mint_token_pair :
      (pair : MintedPair) (later : Instant)
      → (mint_token_pair c p client_id upstream_id ttl wants_refresh m).1 ≡ some pair
      → later < expires_after m.access ttl
      → (Tokens.resolve c
          (mint_token_pair c p client_id upstream_id ttl wants_refresh m).0.tokens
          pair.access_token
          later).1
        ≡ some (record { upstream_id = upstream_id; client_id = client_id })
  unfolding mint_token_pair mint_refresh with_access
  resolve-mint_token_pair pair later h lt = ground (
    arith,
    h,
    resolve-mint c p.tokens client_id upstream_id ttl m.access_rng m.access_at m.access
        pair.access_token pair.access_digest later,
  )

  -- There is a refresh token exactly if one was wanted, and it redeems for the same session.
  pub redeem-mint_token_pair :
      (pair : MintedPair) (token : Bytes) (now later : Instant)
      → (mint_token_pair c p client_id upstream_id ttl wants_refresh m).1 ≡ some pair
      → pair.refresh_token ≡ some token
      → now < expires_after m.refresh refresh_ttl
      → (Refresh.redeem c
          (mint_token_pair c p client_id upstream_id ttl wants_refresh m).0.refresh_tokens
          token
          now
          later).1
        ≡ RefreshOutcome.ok client_id upstream_id
  unfolding mint_token_pair mint_refresh with_access
  redeem-mint_token_pair pair token now later h e lt =
      elim (Option-cases
        (Refresh.mint c p.refresh_tokens client_id upstream_id m.refresh_rng m.refresh_at
          m.refresh).1) [
            | inl failed ↦ absurd (ground (arith, h, e, failed))
            | inr (minted, found) ↦ ground (
              arith,
              h,
              e,
              found,
              redeem-mint_active c p.refresh_tokens client_id upstream_id m.refresh_rng m.refresh_at
                  m.refresh token minted.1 now later,
            )
          ]

  pub refresh_token-mint_token_pair :
      (pair : MintedPair)
      → (mint_token_pair c p client_id upstream_id ttl wants_refresh m).1 ≡ some pair
      → is_some pair.refresh_token ≡ wants_refresh
  unfolding mint_token_pair mint_refresh with_access
  refresh_token-mint_token_pair pair h = ground (arith, h)
