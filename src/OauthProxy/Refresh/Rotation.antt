-- ===== src/OauthProxy/Refresh/Rotation.antt =====
-- Redemption, rotation and rollback of one refresh token.
use ruprogress_mcp.Std.Map.{get-insert, get-remove, insert-get, insert-insert}
use ruprogress_mcp.Std.Clock.{Instant, Reads}
use ruprogress_mcp.OauthProxy.Upstream.{refresh_ttl}
use ruprogress_mcp.OauthProxy.Refresh.{
  RefreshOwner, RefreshStore, active, drop_guard, in_flight, mint, ok, redeem, retire,
  retired_refresh_ttl, reused, invalid,
}
use ruprogress_mcp.OauthProxy.Crypto.{Crypto, digest}
use ruprogress_mcp.OauthProxy.Capacity.{expires_after, no_room_iff, sweep_and_check_capacity}
use ruprogress_mcp.Base.{
  ==_refl, Bool-cases, ltb, if◌then◌else◌, ◌&&◌, Bytes, Option, Option-cases, arith, bytes_eq, inl,
  inr, some, true, ◌<◌, ◌↔◌, ◌≡◌,
}
use ruprogress_mcp.Std.Map

module _ (c : Crypto) where
  -- A redemption succeeds exactly for an unexpired entry that is active.
  pub redeem-active_iff :
      (store : RefreshStore) (token : Bytes) (now later : Instant) (client_id upstream_id : Bytes)
      → ((redeem c store token now later).1 ≡ ok client_id upstream_id) ↔ (
          (at : Instant) × (Map.get (digest c token) store.current
            ≡ some
                (record { client_id = client_id; upstream_id = upstream_id; state = active }, at))
          × (now < at))
  unfolding redeem
  redeem-active_iff store token now later client_id upstream_id =
      elim (Option-cases (Map.get (digest c token) store.current)) [
        | inl missing ↦ rw (missing, redeem) (ground arith)
        | inr (e, found) ↦
            rw (found, redeem) ((λ h. (e.1, ground arith, ground arith)), (λ h. ground arith))
      ]

  -- A minted token is redeemed for its client and session until its end.
  pub redeem-mint_active :
      (store : RefreshStore) (client_id upstream_id : Bytes) (rng : Option Bytes) (minted : Instant)
      (r : Reads) (token key : Bytes) (now later : Instant)
      → (mint c store client_id upstream_id rng minted r).1 ≡ some (token, key)
      → now < expires_after r refresh_ttl
      → (redeem c (mint c store client_id upstream_id rng minted r).0 token now later).1
        ≡ ok client_id upstream_id
  unfolding redeem mint
  redeem-mint_active store client_id upstream_id rng minted r token key now later h lt = ground (
    arith,
    get-insert (digest c token) (digest c token)
        (
          record { client_id = client_id; upstream_id = upstream_id; state = active },
          expires_after r refresh_ttl,
        )
        (sweep_and_check_capacity minted store.current (digest c token)).0,
    ==_refl (digest c token),
  )

  -- A second use while the first is in flight is a reuse of the same session.
  pub redeem_twice :
      (store : RefreshStore) (token : Bytes) (now later : Instant) (client_id upstream_id : Bytes)
      (at : Instant) (again after : Instant)
      → (redeem c store token now later).1 ≡ ok client_id upstream_id
      → Map.get (digest c token) store.current
        ≡ some (record { client_id = client_id; upstream_id = upstream_id; state = active }, at)
      → again < at
      → (redeem c (redeem c store token now later).0 token again after).1 ≡ reused upstream_id
  unfolding redeem
  redeem_twice store token now later client_id upstream_id at again after h found lt = ground (
    arith,
    get-insert (digest c token) (digest c token)
        (record { client_id = client_id; upstream_id = upstream_id; state = in_flight }, at)
        store.current,
    ==_refl (digest c token),
  )

  -- Dropping the guard of a redemption restores the very store before it.
  pub drop_guard-redeem :
      (store : RefreshStore) (token : Bytes) (now later : Instant) (client_id upstream_id : Bytes)
      → (redeem c store token now later).1 ≡ ok client_id upstream_id
      → drop_guard (redeem c store token now later).0 (digest c token) ≡ store
  unfolding redeem drop_guard
  drop_guard-redeem store token now later client_id upstream_id h =
      let (at, found, lt) = (redeem-active_iff store token now later client_id upstream_id).0 h in
      let owner : RefreshOwner = record {
        client_id = client_id;
        upstream_id = upstream_id;
        state = active;
      } in
      ground (
        arith,
        get-insert (digest c token) (digest c token) (record owner { state = in_flight }, at)
            store.current,
        ==_refl (digest c token),
        insert-insert (digest c token) (owner, at) (record owner { state = in_flight }, at)
            store.current,
        insert-get (digest c token) (owner, at) store.current found,
      )

  -- A rotated token that is presented again is a reuse of its session, as long as the retired set
  -- had room and remembers it.
  pub redeem-retire :
      (store : RefreshStore) (token upstream_id : Bytes) (at : Instant) (r : Reads)
      (now later : Instant)
      → (sweep_and_check_capacity at store.retired (digest c token)).1 ≡ true
      → later < expires_after r retired_refresh_ttl
      → (redeem c (retire c store token upstream_id at r) token now later).1 ≡ reused upstream_id
  unfolding redeem retire
  redeem-retire store token upstream_id at r now later room lt = ground (
    arith,
    get-remove (digest c token) (digest c token) store.current,
    ==_refl (digest c token),
    get-insert (digest c token) (digest c token) (upstream_id, expires_after r retired_refresh_ttl)
        (sweep_and_check_capacity at store.retired (digest c token)).0,
  )

  -- A rotated token that is presented again is never redeemed: it is a reuse of its session while
  -- the retired set remembers it, and unknown when that was full or has forgotten it.
  pub redeem-retire_lem :
      (store : RefreshStore) (token upstream_id : Bytes) (at : Instant) (r : Reads)
      (now later : Instant)
      → (redeem c (retire c store token upstream_id at r) token now later).1 ≡ (
          if (sweep_and_check_capacity at store.retired (digest c token)).1
            && ltb later (expires_after r retired_refresh_ttl)
          then reused upstream_id
          else invalid)
  unfolding redeem retire
  redeem-retire_lem store token upstream_id at r now later =
      let key = digest c token in
      let swept = (sweep_and_check_capacity at store.retired key).0 in
      let removed = get-remove key key store.current in
      elim (Bool-cases (sweep_and_check_capacity at store.retired key).1) [
        | inl room ↦ ground (
          arith,
          room,
          removed,
          ==_refl key,
          get-insert key key (upstream_id, expires_after r retired_refresh_ttl) swept,
        )
        | inr full ↦
            ground (arith, full, removed, ==_refl key, (no_room_iff at store.retired key).0 full)
      ]
