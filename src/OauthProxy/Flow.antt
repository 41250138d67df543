-- ===== src/OauthProxy/Flow.antt =====
-- endpoints.rs: the state that /token and /revoke share, and what both do to a session.
pub mod Proxy
pub mod Minting
pub mod Reached
use ruprogress_mcp.Std.Clock.{Duration, Instant, Reads}
use ruprogress_mcp.OauthProxy.Upstream.{UpstreamTokenSet}
use ruprogress_mcp.OauthProxy.State.{ProxyState, take_session}
use ruprogress_mcp.OauthProxy.Crypto.{Crypto}
use ruprogress_mcp.Base.{
  Bool, Bytes, List, Option, [], bytes_eq, codes, filter, if◌then◌else◌, is_some, nat_eq, none,
  some, ℕ, ◌++◌, ◌∷◌,
}
use ruprogress_mcp.Auth.Verifier.{Cache, purge}
use ruprogress_mcp.OauthProxy.Tokens
use ruprogress_mcp.OauthProxy.Refresh
use ruprogress_mcp.OauthProxy.State

-- `cache` is the introspection cache; `revoked` lists the upstream revocations that were asked
-- for, with their hints, and `spawned` the sets whose revocation was left to a background task.
pub record Flow : Type 0 where
  pub proxy : ProxyState
  pub cache : Cache
  pub revoked : List (Bytes × Bytes)
  pub spawned : List UpstreamTokenSet

pub record MintedPair : Type 0 where
  pub access_token : Bytes
  pub access_digest : Bytes
  pub refresh_token : Option Bytes
  pub refresh_digest : Option Bytes
  pub ttl : Duration

-- A response is its status and error code, the token body, or empty.
pub data Response : Type 0 where
  error : ℕ → Bytes → Response
  tokens : MintedPair → Bytes → Response
  empty : ℕ → Response

-- What minting a pair reads of the generator and the clock.
pub record MintReads : Type 0 where
  pub access_rng : Option Bytes
  pub access_at : Instant
  pub access : Reads
  pub refresh_rng : Option Bytes
  pub refresh_at : Instant
  pub refresh : Reads

-- The token to revoke upstream, and its hint: the refresh token if there is one.
unfoldable pub revocation : UpstreamTokenSet → Bytes × Bytes
revocation set = elim set.refresh [
  | none ↦ (set.access, codes "access_token")
  | some refresh ↦ (refresh, codes "refresh_token")
]

unfoldable pub with_access : MintedPair → Option (Bytes × Bytes) → Option MintedPair
with_access pair none = none
with_access pair (some (token, key)) =
    some (record pair { refresh_token = some token; refresh_digest = some key })

module _ (c : Crypto) where
  unfoldable pub revoke_upstream_and_purge : Flow → UpstreamTokenSet → Flow
  unfolding revocation
  revoke_upstream_and_purge f set = record f {
    revoked = f.revoked ++ revocation set ∷ [];
    cache = purge c f.cache set.access;
  }

  unfoldable pub mint_refresh :
      ProxyState → Bytes → Bytes → MintedPair → MintReads → ProxyState × Option MintedPair
  unfolding with_access
  mint_refresh p client_id upstream_id pair m =
      let (store, minted) =
        Refresh.mint c p.refresh_tokens client_id upstream_id m.refresh_rng m.refresh_at
          m.refresh in
      (record p { refresh_tokens = store }, with_access pair minted)

  unfoldable pub mint_token_pair :
      ProxyState → Bytes → Bytes → Duration → Bool → MintReads → ProxyState × Option MintedPair
  unfolding mint_refresh
  mint_token_pair p client_id upstream_id ttl wants_refresh m =
      let (store, minted) =
        Tokens.mint c p.tokens client_id upstream_id ttl m.access_rng m.access_at m.access in
      let minting = record p { tokens = store } in
      elim minted [
        | none ↦ (minting, none)
        | some (token, key) ↦
            let pair : MintedPair = record {
              access_token = token;
              access_digest = key;
              refresh_token = none;
              refresh_digest = none;
              ttl = ttl;
            } in
            if wants_refresh
            then mint_refresh minting client_id upstream_id pair m
            else (minting, some pair)
      ]

  unfoldable pub purge_each : Cache → List UpstreamTokenSet → Cache
  purge_each cache [] = cache
  purge_each cache (set ∷ swept) = purge_each (purge c cache set.access) swept

  unfoldable pub sweep_expired_sessions : Flow → Instant → Flow
  unfolding purge_each
  sweep_expired_sessions f now =
      let (proxy, swept) = State.sweep_expired_sessions f.proxy now in
      record f {
        proxy = proxy;
        cache = purge_each f.cache swept;
        spawned = f.spawned ++ filter (λ set. is_some set.refresh) swept;
      }

  -- The session goes, and its access token leaves the introspection cache.
  unfoldable pub drop_session : Flow → Bytes → Flow
  drop_session f upstream_id =
      let (proxy, taken) = take_session f.proxy upstream_id in
      elim taken [
        | none ↦ record f { proxy = proxy }
        | some set ↦ record f { proxy = proxy; cache = purge c f.cache set.access }
      ]

  -- The session goes, and is revoked upstream.
  unfoldable pub kill_session : Flow → Bytes → Flow
  unfolding revoke_upstream_and_purge
  kill_session f upstream_id =
      let (proxy, taken) = take_session f.proxy upstream_id in
      elim taken [
        | none ↦ record f { proxy = proxy }
        | some set ↦ revoke_upstream_and_purge (record f { proxy = proxy }) set
      ]
