-- ===== src/OauthProxy/Transactions/Use.antt =====
-- A transaction is used at most once, and is there until then or until its end.
use ruprogress_mcp.Std.Map.{Distinct, get-remove, get-insert}
use ruprogress_mcp.Std.Clock.{Instant, Reads}
use ruprogress_mcp.OauthProxy.Transactions.{
  Transaction, TransactionStore, create, transaction_ttl, take,
}
use ruprogress_mcp.OauthProxy.Crypto.{Crypto, digest, mint_opaque_token}
use ruprogress_mcp.OauthProxy.Capacity.{expires_after, get-sweep_live, sweep_and_check_capacity}
use ruprogress_mcp.Base.{
  ==_refl, Bytes, Option, bytes_eq, ltb-le, none, some, ◌<◌, ◌≡◌, ◌≢◌, ◌≤◌, ==_ne, Option-cases, [],
  arith, inl, inr,
}
use ruprogress_mcp.Std.Map

module _ (c : Crypto) where
  -- Taking a transaction leaves nothing for a second call with the same state, at any time.
  pub take_twice :
      (store : TransactionStore) (state : Bytes) (now later : Instant)
      → (take c (take c store state now).0 state later).1 ≡ none
  unfolding take
  take_twice store state now later =
      rw (get-remove (digest c state) (digest c state) store, ==_refl (digest c state))

  -- A created transaction is what a take before its end returns.
  pub take-create :
      (store : TransactionStore) (t : Transaction) (rng : Option Bytes) (now : Instant) (r : Reads)
      (id : Bytes) (later : Instant)
      → (create c store t rng now r).1 ≡ some id
      → later < expires_after r transaction_ttl
      → (take c (create c store t rng now r).0 id later).1 ≡ some t
  unfolding take create
  take-create store t rng now r id later h lt = ground (
    arith,
    get-insert (digest c id) (digest c id) (t, expires_after r transaction_ttl)
        (sweep_and_check_capacity now store (digest c id)).0,
    ==_refl (digest c id),
  )

  -- Taking never yields a transaction at or after its end.
  pub take_expired :
      (store : TransactionStore) (state : Bytes) (t : Transaction) (at now : Instant)
      → Map.get (digest c state) store ≡ some (t, at)
      → at ≤ now
      → (take c store state now).1 ≡ none
  unfolding take
  take_expired store state t at now h le = rw (h, ltb-le now at le)

  -- A full store refuses a new round and drops none in flight: whatever `create` answers, every
  -- unexpired transaction under another key stays.
  pub get-create_live :
      (store : TransactionStore) (t : Transaction) (rng : Option Bytes) (now : Instant) (r : Reads)
      (j : Bytes) (old : Transaction) (at : Instant)
      → Distinct store
      → Map.get j store ≡ some (old, at)
      → now < at
      → ((id : Bytes) → (create c store t rng now r).1 ≡ some id → digest c id ≢ j)
      → Map.get j (create c store t rng now r).0 ≡ some (old, at)
  unfolding create
  get-create_live store t rng now r j old at d h lt fresh =
      elim (Option-cases (mint_opaque_token c [] rng)) [
        | inl failed ↦ rw (failed, create) h
        | inr (id, minted) ↦ ground (
          arith,
          fresh id,
          ==_ne (digest c id) j,
          get-sweep_live now store (digest c id) j old at d h lt,
          get-insert j (digest c id) (t, expires_after r transaction_ttl)
              (sweep_and_check_capacity now store (digest c id)).0,
        )
      ]
