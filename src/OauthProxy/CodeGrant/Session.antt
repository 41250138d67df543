-- ===== src/OauthProxy/CodeGrant/Session.antt =====
-- A session that a code grant opens, or fails to open.
use ruprogress_mcp.Std.Map
use ruprogress_mcp.OauthProxy.Tokens.{TokenEntry}
use ruprogress_mcp.OauthProxy.State.Gone.{resolve-take_session, take_session-gone}
use ruprogress_mcp.OauthProxy.Upstream.Deadline.{access_token-insert}
use ruprogress_mcp.Std.Clock.{Duration, Instant, saturating_duration_since}
use ruprogress_mcp.OauthProxy.Upstream.{UpstreamTokenSet, access_token, session_deadline}
use ruprogress_mcp.OauthProxy.Flow.Minting.{mint_token_pair-frame, resolve-mint_token_pair}
use ruprogress_mcp.OauthProxy.Crypto.{Crypto}
use ruprogress_mcp.OauthProxy.Capacity.{expires_after}
use ruprogress_mcp.Base.{
  Bytes, arith, bytes_eq, is_some, some, ◌<◌, ◌≡◌, Option-cases, inl, inr, nat_eq, none, true, ℕ,
  ◌≢◌,
}
use ruprogress_mcp.OauthProxy.Tokens
use ruprogress_mcp.OauthProxy.Flow.{Response, tokens, Flow, MintedPair, error, mint_token_pair}
use ruprogress_mcp.OauthProxy.CodeGrant.{issue, CodeGrantReads, open_session, store_session}

module _ (c : Crypto) (f : Flow) (code client_id : Bytes) (upstream : UpstreamTokenSet)
    (upstream_id : Bytes) (t : CodeGrantReads) where
  abbrev issued : Flow × Response
  issued = issue c f code client_id upstream upstream_id t

  issue-tokens :
      (pair : MintedPair) (scope : Bytes) (later : Instant)
      → issued.1 ≡ tokens pair scope
      → later < expires_after t.pair.access (saturating_duration_since upstream.expires_at t.ttl_at)
      → ((Tokens.resolve c issued.0.proxy.tokens pair.access_token later).1
          ≡ some (record { upstream_id = upstream_id; client_id = client_id }))
        × (issued.0.proxy.upstream_tokens ≡ f.proxy.upstream_tokens)
  unfolding issue
  issue-tokens pair scope later h lt =
      let ttl : Duration = saturating_duration_since upstream.expires_at t.ttl_at in
      ground (
        arith,
        h,
        resolve-mint_token_pair c f.proxy client_id upstream_id ttl (is_some upstream.refresh)
            t.pair pair later,
        mint_token_pair-frame c f.proxy client_id upstream_id ttl (is_some upstream.refresh) t.pair,
      )

store_session-access_token :
    (c : Crypto) (f : Flow) (client_id : Bytes) (upstream : UpstreamTokenSet) (t : CodeGrantReads)
    (upstream_id : Bytes) (later : Instant)
    → (store_session c f client_id upstream t).1 ≡ some upstream_id
    → later < session_deadline t.deadline upstream
    → access_token
        (store_session c f client_id upstream t).0.proxy.upstream_tokens
        upstream_id
        later
      ≡ some upstream.access
unfolding store_session
store_session-access_token c f client_id upstream t upstream_id later h live =
    access_token-insert _ upstream t.session_rng t.deadline t.insert_at upstream_id later h live

-- A granted access token stands for the session whose upstream token the code was minted with:
-- until its end, and the session's deadline, it resolves to the client and to that token.
pub open_session-tokens :
    (c : Crypto) (f : Flow) (code client_id : Bytes) (upstream : UpstreamTokenSet)
    (t : CodeGrantReads) (pair : MintedPair) (scope : Bytes) (later : Instant)
    → (open_session c f code client_id upstream t).1 ≡ tokens pair scope
    → later < expires_after t.pair.access (saturating_duration_since upstream.expires_at t.ttl_at)
    → later < session_deadline t.deadline upstream
    → (upstream_id : Bytes) × ((Tokens.resolve c
          (open_session c f code client_id upstream t).0.proxy.tokens
          pair.access_token
          later).1
        ≡ some (record { upstream_id = upstream_id; client_id = client_id }))
      × (access_token
            (open_session c f code client_id upstream t).0.proxy.upstream_tokens
            upstream_id
            later
          ≡ some upstream.access)
unfolding open_session
open_session-tokens c f code client_id upstream t pair scope later h lt live =
    elim (Option-cases (store_session c f client_id upstream t).1) [
      | inl failed ↦ absurd (ground (arith, h, failed))
      | inr (upstream_id, stored) ↦
          let g = (store_session c f client_id upstream t).0 in
          let granted : (issue c g code client_id upstream upstream_id t).1 ≡ tokens pair scope =
            ground (arith, h, stored) in
          let (resolved, same) =
            issue-tokens c g code client_id upstream upstream_id t pair scope later granted lt in
          let held =
            store_session-access_token c f client_id upstream t upstream_id later stored live in
          (upstream_id, ground (arith, stored, resolved), ground (arith, stored, same, held))
    ]

-- A grant that fails after the session was stored leaves nothing of it: the session is gone, and
-- no access token resolves to it.
pub issue-error :
    (c : Crypto) (f : Flow) (code client_id : Bytes) (upstream : UpstreamTokenSet)
    (upstream_id : Bytes) (t : CodeGrantReads) (status : ℕ) (reason : Bytes) (token : Bytes)
    (later : Instant) (owner : Bytes)
    → is_some (Map.get upstream_id f.proxy.upstream_tokens) ≡ true
    → (issue c f code client_id upstream upstream_id t).1 ≡ error status reason
    → (Map.get upstream_id (issue c f code client_id upstream upstream_id t).0.proxy.upstream_tokens
        ≡ none)
      × ((Tokens.resolve c
            (issue c f code client_id upstream upstream_id t).0.proxy.tokens
            token
            later).1
          ≢ some (record { upstream_id = upstream_id; client_id = owner }))
unfolding issue
issue-error c f code client_id upstream upstream_id t status reason token later owner there h =
    let ttl : Duration = saturating_duration_since upstream.expires_at t.ttl_at in
    let made =
      mint_token_pair c f.proxy client_id upstream_id ttl (is_some upstream.refresh) t.pair in
    let frame =
      mint_token_pair-frame c f.proxy client_id upstream_id ttl (is_some upstream.refresh) t.pair in
    let gone = take_session-gone made.0 upstream_id in
    elim (Option-cases made.1) [
      | inr (pair, minted) ↦ absurd (ground (arith, h, minted))
      | inl failed ↦ (
        ground (arith, failed, gone),
        λ resolved.
            resolve-take_session c made.0 upstream_id token later owner
              (ground (arith, there, frame)) (ground (arith, failed, resolved)),
      )
    ]
