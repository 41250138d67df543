-- ===== src/OauthProxy/Tokens/Resolution.antt =====
-- Which tokens resolve, and to what.
use ruprogress_mcp.Std.Map.{Distinct, any-get, get-insert, get-remove, get-retain}
use ruprogress_mcp.Std.Clock.{Duration, Instant, Reads}
use ruprogress_mcp.OauthProxy.Crypto.{Crypto, digest}
use ruprogress_mcp.OauthProxy.Capacity.{expires_after, sweep_and_check_capacity}
use ruprogress_mcp.Base.{
  ==_refl, Bytes, Option, Option-cases, [], any, arith, bytes_beq_iff, bytes_eq, contains,
  if◌then◌else◌, inl, inr, ltb, lt→ltb, none, not, some, true, ◌&&◌, ◌<◌, ◌==◌, ◌>>=◌, ◌↔◌, ◌∷◌,
  ◌≡◌, ◌≤◌,
}
use ruprogress_mcp.Std.Map
use ruprogress_mcp.OauthProxy.Tokens.{
  take, TokenEntry, TokenStore, delete_by_digest, live_client_ids, mint, remove_by_upstream,
  resolve,
}

module _ (c : Crypto) where
  -- A minted token resolves to its session and client until its end.
  pub resolve-mint :
      (store : TokenStore) (client_id upstream_id : Bytes) (ttl : Duration) (rng : Option Bytes)
      (now : Instant) (r : Reads) (token key : Bytes) (later : Instant)
      → (mint c store client_id upstream_id ttl rng now r).1 ≡ some (token, key)
      → later < expires_after r ttl
      → (resolve c (mint c store client_id upstream_id ttl rng now r).0 token later).1
        ≡ some (record { upstream_id = upstream_id; client_id = client_id })
  unfolding resolve mint
  resolve-mint store client_id upstream_id ttl rng now r token key later h lt = ground (
    arith,
    get-insert (digest c token) (digest c token)
        (record { upstream_id = upstream_id; client_id = client_id }, expires_after r ttl)
        (sweep_and_check_capacity now store (digest c token)).0,
    ==_refl (digest c token),
  )

  -- A token resolves exactly while its entry is there and before its end.
  pub resolve_iff :
      (store : TokenStore) (token : Bytes) (now : Instant) (entry : TokenEntry)
      → ((resolve c store token now).1 ≡ some entry)
        ↔ ((at : Instant) × (Map.get (digest c token) store ≡ some (entry, at)) × (now < at))
  unfolding resolve
  resolve_iff store token now entry = elim (Option-cases (Map.get (digest c token) store)) [
    | inl missing ↦ rw (missing, resolve) (ground arith)
    | inr (e, found) ↦
        rw (found, resolve) ((λ h. (e.1, ground arith, ground arith)), (λ h. ground arith))
  ]

  -- To resolve a token changes what no later call sees: only an expired entry is dropped.
  pub resolve-resolve :
      (store : TokenStore) (token other : Bytes) (now later : Instant)
      → now ≤ later
      → (resolve c (resolve c store token now).0 other later).1 ≡ (resolve c store other later).1
  unfolding resolve
  resolve-resolve store token other now later le = ground (
    arith,
    get-remove (digest c other) (digest c token) store,
    bytes_beq_iff (digest c token) (digest c other),
  )

  -- After `remove_by_upstream` the tokens of that session resolve to nothing, and every other
  -- token to what it did.
  pub resolve-remove_by_upstream :
      (store : TokenStore) (upstream_id token : Bytes) (now : Instant)
      → Distinct store
      → (resolve c (remove_by_upstream store upstream_id) token now).1 ≡ (
          (resolve c store token now).1 >>= λ entry.
          if entry.upstream_id == upstream_id then none else some entry)
  unfolding resolve remove_by_upstream
  resolve-remove_by_upstream store upstream_id token now d = ground (
    arith,
    get-retain (λ (_ : Bytes) (e : TokenEntry × Instant). not (e.0.upstream_id == upstream_id))
        (digest c token) store d,
  )

  -- A revoked token resolves no more.
  pub resolve-take :
      (store : TokenStore) (token : Bytes) (now : Instant)
      → (resolve c (take c store token).0 token now).1 ≡ none
  unfolding resolve take
  resolve-take store token now =
      ground (arith, get-remove (digest c token) (digest c token) store, ==_refl (digest c token))

  pub resolve-delete_by_digest :
      (store : TokenStore) (token : Bytes) (now : Instant)
      → (resolve c (delete_by_digest store (digest c token)) token now).1 ≡ none
  unfolding resolve delete_by_digest
  resolve-delete_by_digest store token now =
      ground (arith, get-remove (digest c token) (digest c token) store, ==_refl (digest c token))

contains-live :
    (store : TokenStore) (now : Instant) (client_id : Bytes)
    → any (λ e. ltb now e.1.1 && (e.1.0.client_id == client_id)) store ≡ true
    → contains (live_client_ids store now) client_id ≡ true
unfolding live_client_ids
contains-live [] now client_id h = cc
contains-live (e ∷ store) now client_id h = ground (arith, contains-live store now client_id)

-- The client of a token that resolves is among the live ones.
pub live_client_ids-resolve :
    (c : Crypto) (store : TokenStore) (token : Bytes) (now : Instant) (entry : TokenEntry)
    → (resolve c store token now).1 ≡ some entry
    → contains (live_client_ids store now) entry.client_id ≡ true
live_client_ids-resolve c store token now entry h =
    let (at, found, lt) = (resolve_iff c store token now entry).0 h in
    contains-live store now entry.client_id (
      any-get (λ e. ltb now e.1.1 && (e.1.0.client_id == entry.client_id)) (digest c token)
        (entry, at) store found (rw (lt→ltb now at lt, ==_refl entry.client_id)))
