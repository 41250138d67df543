-- ===== src/OauthProxy/Refresh/Exclusion.antt =====
-- Requests that interleave: between a redemption and the drop of its guard, any other calls may
-- reach the store, in any order.
use ruprogress_mcp.Std.Map.{
  Distinct, HashMap, get-insert, get-remove, get-retain, insert-Distinct, remove-Distinct, retain,
  retain-Distinct,
}
use ruprogress_mcp.Std.Clock.{Instant, Reads}
use ruprogress_mcp.OauthProxy.Upstream.{refresh_ttl}
use ruprogress_mcp.OauthProxy.Refresh.Rotation.{redeem-active_iff}
use ruprogress_mcp.OauthProxy.Crypto.{Crypto, digest, mint_opaque_token}
use ruprogress_mcp.OauthProxy.Capacity.{expires_after, sweep_and_check_capacity}
use ruprogress_mcp.Base.{
  ==_refl, All, Bool, Bytes, List, Option, Option-cases, [], arith, bytes_beq_iff, bytes_eq, codes,
  inl, inr, ltb, none, refl, some, ◌∷◌, ◌≡◌, ◌≢◌, ◌⊎◌,
}
use ruprogress_mcp.Std.Map
use ruprogress_mcp.OauthProxy.Refresh.{
  take, RefreshOwner, RefreshStore, active, delete_by_digest, discard, drop_guard, in_flight, mint,
  ok, redeem, remove_by_upstream, retire,
}

-- A call of the store, with what it reads of the clock and of the random generator.
pub data Call : Type 0 where
  mints : Bytes → Bytes → Option Bytes → Instant → Reads → Call
  redeems : Bytes → Instant → Instant → Call
  retires : Bytes → Bytes → Instant → Reads → Call
  discards : Bytes → Call
  takes : Bytes → Call
  drops_guard : Bytes → Call
  deletes : Bytes → Call
  purges : Bytes → Call

unfoldable pub apply : Crypto → RefreshStore → Call → RefreshStore
apply c s (mints client_id upstream_id rng now r) = (mint c s client_id upstream_id rng now r).0
apply c s (redeems token now later) = (redeem c s token now later).0
apply c s (retires token upstream_id now r) = retire c s token upstream_id now r
apply c s (discards token) = discard c s token
apply c s (takes token) = (take c s token).0
apply c s (drops_guard key) = drop_guard s key
apply c s (deletes key) = delete_by_digest s key
apply c s (purges upstream_id) = remove_by_upstream s upstream_id

unfoldable pub run : Crypto → RefreshStore → List Call → RefreshStore
run c s [] = s
run c s (call ∷ calls) = run c (apply c s call) calls

-- The call neither drops the guard of `key` nor mints a token with this digest.
abbrev pub Spares : Crypto → Bytes → Call → Type 0
Spares c key (mints client_id upstream_id rng now r) =
    (token : Bytes) → mint_opaque_token c (codes "rup_rt_") rng ≡ some token → digest c token ≢ key
Spares c key (drops_guard other) = other ≢ key
Spares c key _ = Unit {0}

-- Nothing is there to redeem: no entry, or one in flight.
abbrev pub IsBusy : Option (RefreshOwner × Instant) → Type 0
IsBusy none = Unit {0}
IsBusy (some e) = e.0.state ≡ in_flight

pub record IsLocked (key : Bytes) (m : HashMap Bytes (RefreshOwner × Instant)) : Type 0 where
  pub distinct : Distinct m
  pub busy : IsBusy (Map.get key m)

module _ (key : Bytes) (m : HashMap Bytes (RefreshOwner × Instant)) (l : IsLocked key m) where
  remove-IsLocked : (j : Bytes) → IsLocked key (Map.remove j m)
  remove-IsLocked j = record {
    distinct = remove-Distinct j m l.distinct;
    busy = ground (arith, get-remove key j m, l.busy);
  }

  retain-IsLocked : (p : Bytes → RefreshOwner × Instant → Bool) → IsLocked key (retain p m)
  retain-IsLocked p = record {
    distinct = retain-Distinct p m l.distinct;
    busy = ground (arith, get-retain p key m l.distinct, l.busy);
  }

  -- A write under another key, or of an entry in flight.
  insert-IsLocked :
      (j : Bytes) (v : RefreshOwner × Instant)
      → (j ≢ key) ⊎ (v.0.state ≡ in_flight)
      → IsLocked key (Map.insert j v m)
  insert-IsLocked j v h = record {
    distinct = insert-Distinct j v m l.distinct;
    busy = ground (arith, get-insert key j v m, bytes_beq_iff j key, l.busy);
  }

module _ (c : Crypto) (key : Bytes) (s : RefreshStore) (l : IsLocked key s.current) where
  mint-IsLocked :
      (client_id upstream_id : Bytes) (rng : Option Bytes) (now : Instant) (r : Reads)
      → Spares c key (mints client_id upstream_id rng now r)
      → IsLocked key (mint c s client_id upstream_id rng now r).0.current
  unfolding mint sweep_and_check_capacity
  mint-IsLocked client_id upstream_id rng now r h =
      elim (Option-cases (mint_opaque_token c (codes "rup_rt_") rng)) [
        | inl failed ↦ rw (failed, mint) l
        | inr (token, minted) ↦
            let swept = retain-IsLocked key s.current l (λ _ entry. ltb now entry.1) in
            let written =
              insert-IsLocked key _ swept (digest c token)
                (
                  record { client_id = client_id; upstream_id = upstream_id; state = active },
                  expires_after r refresh_ttl,
                )
                (inl (h token minted)) in
            ground (arith, swept, written)
      ]

  redeem-IsLocked :
      (token : Bytes) (now later : Instant) → IsLocked key (redeem c s token now later).0.current
  unfolding redeem
  redeem-IsLocked token now later = elim (Option-cases (Map.get (digest c token) s.current)) [
    | inl missing ↦ rw (missing, redeem) l
    | inr (e, found) ↦
        let removed = remove-IsLocked key s.current l (digest c token) in
        let written =
          insert-IsLocked key s.current l (digest c token) (record e.0 { state = in_flight }, e.1)
            (inr refl) in
        ground (arith, removed, written)
  ]

  drop_guard-IsLocked : (other : Bytes) → other ≢ key → IsLocked key (drop_guard s other).current
  unfolding drop_guard
  drop_guard-IsLocked other h = elim (Option-cases (Map.get other s.current)) [
    | inl missing ↦ rw (missing, drop_guard) l
    | inr (e, found) ↦
        let written =
          insert-IsLocked key s.current l other (record e.0 { state = active }, e.1) (inl h) in
        ground (arith, written)
  ]

  -- No call that spares the key makes it redeemable.
  apply-IsLocked : (call : Call) → Spares c key call → IsLocked key (apply c s call).current
  unfolding apply retire discard take delete_by_digest remove_by_upstream
  apply-IsLocked (mints client_id upstream_id rng now r) h =
      mint-IsLocked client_id upstream_id rng now r h
  apply-IsLocked (redeems token now later) h = redeem-IsLocked token now later
  apply-IsLocked (retires token upstream_id now r) h = remove-IsLocked key s.current l _
  apply-IsLocked (discards token) h = remove-IsLocked key s.current l _
  apply-IsLocked (takes token) h = remove-IsLocked key s.current l _
  apply-IsLocked (drops_guard other) h = drop_guard-IsLocked other h
  apply-IsLocked (deletes other) h = remove-IsLocked key s.current l other
  apply-IsLocked (purges upstream_id) h = retain-IsLocked key s.current l _

run-IsLocked :
    (c : Crypto) (key : Bytes) (s : RefreshStore) (calls : List Call)
    → IsLocked key s.current
    → All (Spares c key) calls
    → IsLocked key (run c s calls).current
unfolding run
run-IsLocked c key s [] l h = l
run-IsLocked c key s (call ∷ calls) l h =
    run-IsLocked c key (apply c s call) calls (apply-IsLocked c key s l call h.0) h.1

redeemed-IsLocked :
    (c : Crypto) (s : RefreshStore) (token : Bytes) (now later : Instant)
    (client_id upstream_id : Bytes)
    → Distinct s.current
    → (redeem c s token now later).1 ≡ ok client_id upstream_id
    → IsLocked (digest c token) (redeem c s token now later).0.current
unfolding redeem
redeemed-IsLocked c s token now later client_id upstream_id d h =
    let (at, found, lt) = (redeem-active_iff c s token now later client_id upstream_id).0 h in
    let owner : RefreshOwner = record {
      client_id = client_id;
      upstream_id = upstream_id;
      state = in_flight;
    } in
    let written : IsLocked (digest c token) (Map.insert (digest c token) (owner, at) s.current) =
      record {
        distinct = insert-Distinct (digest c token) (owner, at) s.current d;
        busy = ground (
          arith,
          get-insert (digest c token) (digest c token) (owner, at) s.current,
          ==_refl (digest c token),
        );
      } in
    ground (arith, written)

-- Two redemptions of a token never both succeed, whatever other requests do in between, unless
-- the guard of the first is dropped or a minted token collides with its digest.
pub redeem_exclusive :
    (c : Crypto) (s : RefreshStore) (token : Bytes) (now later : Instant)
    (client_id upstream_id : Bytes) (calls : List Call) (again after : Instant)
    (client_id' upstream_id' : Bytes)
    → Distinct s.current
    → (redeem c s token now later).1 ≡ ok client_id upstream_id
    → All (Spares c (digest c token)) calls
    → (redeem c (run c (redeem c s token now later).0 calls) token again after).1
      ≢ ok client_id' upstream_id'
redeem_exclusive c s token now later client_id upstream_id calls again after client_id' upstream_id'
      d h spared won =
    let locked = redeemed-IsLocked c s token now later client_id upstream_id d h in
    let held = run-IsLocked c (digest c token) _ calls locked spared in
    let (at, found, lt) =
      (redeem-active_iff c (run c (redeem c s token now later).0 calls) token again after client_id'
          upstream_id').0
        won in
    let busy : IsBusy
        (Map.get (digest c token) (run c (redeem c s token now later).0 calls).current) =
      held.busy in
    ground (arith, busy, found)
