-- ===== src/OauthProxy/State/Sweep.antt =====
-- What a sweep of expired sessions leaves, and which clients a registration keeps.
use ruprogress_mcp.Std.Map.{Distinct, retain-Distinct}
use ruprogress_mcp.Std.Clock.{Instant}
use ruprogress_mcp.OauthProxy.Upstream.{UpstreamStore, UpstreamTokenSet}
use ruprogress_mcp.OauthProxy.Tokens.Resolution.{
  live_client_ids-resolve, resolve-remove_by_upstream,
}
use ruprogress_mcp.OauthProxy.Tokens.{TokenEntry}
use ruprogress_mcp.OauthProxy.State.Sessions.{unless}
use ruprogress_mcp.OauthProxy.State.{
  ProxyState, RegisterReads, live_clients, purge_all, purge_tokens, register_client,
  sweep_expired_sessions,
}
use ruprogress_mcp.OauthProxy.Registry.Eviction.{get-register_kept}
use ruprogress_mcp.OauthProxy.Registry.{Entry}
use ruprogress_mcp.OauthProxy.Crypto.{Crypto, mint_client_id}
use ruprogress_mcp.Base.{
  ==_sym, Bool, Bytes, List, Option, [], any, arith, bytes_eq, if◌then◌else◌, inl, leb, none, not,
  some, true, ◌++◌, ◌==◌, ◌∷◌, ◌≡◌, ◌≢◌, Option-cases, bytes_beq_iff, false, inr, refl,
}
use ruprogress_mcp.Std.Map
use ruprogress_mcp.OauthProxy.Tokens
use ruprogress_mcp.OauthProxy.Upstream

abbrev names : List (Bytes × UpstreamTokenSet) → Bytes → Bool
names swept id = any (λ e. e.0 == id) swept

purge_all-resolve :
    (c : Crypto) (p : ProxyState) (swept : List (Bytes × UpstreamTokenSet)) (token : Bytes)
    (now : Instant)
    → Distinct p.tokens
    → (Tokens.resolve c (purge_all p swept).tokens token now).1
      ≡ unless (names swept) (Tokens.resolve c p.tokens token now).1
unfolding purge_all purge_tokens
purge_all-resolve c p [] token now d = ground arith
purge_all-resolve c p ((id, set) ∷ swept) token now d =
    let ih = purge_all-resolve c (purge_tokens p id) swept token now (
      unfold Tokens.remove_by_upstream in
      retain-Distinct (λ (_ : Bytes) (e : TokenEntry × Instant). not (e.0.upstream_id == id))
        p.tokens d) in
    let one = resolve-remove_by_upstream c p.tokens id token now d in
    elim (Option-cases (Tokens.resolve c p.tokens token now).1) [
      | inl missing ↦ ground (arith, ih, one, missing)
      | inr (entry, found) ↦ ground (arith, ih, one, found, ==_sym id entry.upstream_id)
    ]

names-sweep_none :
    (store : UpstreamStore) (now : Instant) (id : Bytes)
    → Map.get id store ≡ none
    → names (Upstream.sweep_expired store now).1 id ≡ false
unfolding Upstream.sweep_expired Map.get
names-sweep_none [] now id h = refl
names-sweep_none (e ∷ store) now id h = ground (arith, names-sweep_none store now id)

-- The sweep names exactly the sessions past their deadline.
names-sweep :
    (store : UpstreamStore) (now : Instant) (id : Bytes) (set : UpstreamTokenSet)
    (deadline : Instant)
    → Distinct store
    → Map.get id store ≡ some (set, deadline)
    → names (Upstream.sweep_expired store now).1 id ≡ leb deadline now
unfolding Upstream.sweep_expired Map.get
names-sweep [] now id set deadline d h = cc
names-sweep ((j, e) ∷ store) now id set deadline d h = ground (
  arith,
  bytes_beq_iff j id,
  names-sweep_none store now j d.0,
  names-sweep store now id set deadline d.1,
)

-- After a sweep no token of a session past its deadline resolves; a token of a session that is
-- not, resolves as before.
pub sweep_expired_sessions-resolve :
    (c : Crypto) (p : ProxyState) (token : Bytes) (now later : Instant) (entry : TokenEntry)
    (set : UpstreamTokenSet) (deadline : Instant)
    → Distinct p.tokens
    → Distinct p.upstream_tokens
    → (Tokens.resolve c p.tokens token later).1 ≡ some entry
    → Map.get entry.upstream_id p.upstream_tokens ≡ some (set, deadline)
    → (Tokens.resolve c (sweep_expired_sessions p now).0.tokens token later).1
      ≡ (if leb deadline now then none else some entry)
unfolding sweep_expired_sessions
sweep_expired_sessions-resolve c p token now later entry set deadline d e h found = ground (
  arith,
  h,
  names-sweep p.upstream_tokens now entry.upstream_id set deadline e found,
  purge_all-resolve c
      (record p { upstream_tokens = (Upstream.sweep_expired p.upstream_tokens now).0 })
      (Upstream.sweep_expired p.upstream_tokens now).1 token later d,
)

any-append : (q : Bytes → Bool) (xs ys : List Bytes) → any q xs ≡ true → any q (xs ++ ys) ≡ true
any-append q [] ys h = cc
any-append q (x ∷ xs) ys h = ground (arith, any-append q xs ys)

-- A client whose access token still resolves keeps its registration, however full the registry
-- is and whatever the answer to the newcomer, unless the new id is its own.
pub register_client-live :
    (c : Crypto) (p : ProxyState) (redirect_uris : List Bytes) (client_name rng : Option Bytes)
    (t : RegisterReads) (token : Bytes) (owner : TokenEntry) (entry : Entry)
    → Distinct p.registry
    → (Tokens.resolve c p.tokens token t.tokens_at).1 ≡ some owner
    → Map.get owner.client_id p.registry ≡ some entry
    → ((id : Bytes) → mint_client_id rng ≡ some id → id ≢ owner.client_id)
    → Map.get owner.client_id (register_client p redirect_uris client_name rng t).0.registry
      ≡ some entry
unfolding register_client live_clients
register_client-live c p redirect_uris client_name rng t token owner entry d h found fresh =
    get-register_kept p.registry redirect_uris client_name _ rng t.sweep_at t.stored_at
      owner.client_id entry d found
      (inl (
        any-append _ (Tokens.live_client_ids p.tokens t.tokens_at) _
          (live_client_ids-resolve c p.tokens token t.tokens_at owner h)))
      fresh
