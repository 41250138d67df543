-- ===== src/OauthProxy/Refresh.antt =====
-- store.rs, `RefreshStore` and `InFlightGuard`: the proxy refresh tokens, keyed by their digests.
pub mod Rotation
pub mod Exclusion
use ruprogress_mcp.Std.Map.{HashMap, retain, take_entry}
use ruprogress_mcp.Std.Clock.{Duration, Instant, Reads, from_hours}
use ruprogress_mcp.OauthProxy.Upstream.{refresh_ttl}
use ruprogress_mcp.OauthProxy.Crypto.{Crypto, digest, mint_opaque_token}
use ruprogress_mcp.OauthProxy.Capacity.{expires_after, sweep_and_check_capacity}
use ruprogress_mcp.Base.{
  Bytes, List, Option, codes, filter, if◌then◌else◌, leb, ltb, map, none, not, some, ◌==◌, ◌>>=◌,
  bytes_eq,
}
use ruprogress_mcp.Std.Map

pub data RefreshState : Type 0 where
  active in_flight : RefreshState

pub record RefreshOwner : Type 0 where
  pub client_id : Bytes
  pub upstream_id : Bytes
  pub state : RefreshState

abbrev pub retired_refresh_ttl : Duration
retired_refresh_ttl = from_hours 24

pub record RefreshStore : Type 0 where
  pub current : HashMap Bytes (RefreshOwner × Instant)
  pub retired : HashMap Bytes (Bytes × Instant)

-- The guard of a successful redemption is known by its key.
pub data RefreshOutcome : Type 0 where
  invalid : RefreshOutcome
  reused : Bytes → RefreshOutcome
  ok : Bytes → Bytes → RefreshOutcome

-- The answer from the `retired` map alone.
unfoldable pub redeem_retired : RefreshStore → Bytes → Instant → RefreshOutcome
redeem_retired store key now = elim (Map.get key store.retired) [
  | none ↦ invalid
  | some e ↦ if ltb now e.1 then reused e.0 else invalid
]

-- The answer for a live entry of the `current` map, which is marked as in flight.
unfoldable pub redeem_live :
    RefreshStore → Bytes → RefreshOwner → Instant → RefreshStore × RefreshOutcome
redeem_live store key owner expires_at = elim owner.state [
  | in_flight ↦ (store, reused owner.upstream_id)
  | active ↦ (
    record store {
      current = Map.insert key (record owner { state = in_flight }, expires_at) store.current;
    },
    ok owner.client_id owner.upstream_id,
  )
]

module _ (c : Crypto) where
  unfoldable pub mint :
      RefreshStore
      → Bytes
      → Bytes
      → Option Bytes
      → Instant
      → Reads
      → RefreshStore × Option (Bytes × Bytes)
  unfolding digest mint_opaque_token
  mint store client_id upstream_id rng now r = elim (mint_opaque_token c (codes "rup_rt_") rng) [
    | none ↦ (store, none)
    | some token ↦
        let key = digest c token in
        let (inner, has_room) = sweep_and_check_capacity now store.current key in
        let owner : RefreshOwner = record {
          client_id = client_id;
          upstream_id = upstream_id;
          state = active;
        } in
        if has_room
        then (
          record store { current = Map.insert key (owner, expires_after r refresh_ttl) inner },
          some (token, key),
        )
        else (record store { current = inner }, none)
  ]

  -- `now` is read under the lock of `current`, `later` under that of `retired`.
  unfoldable pub redeem : RefreshStore → Bytes → Instant → Instant → RefreshStore × RefreshOutcome
  unfolding digest redeem_retired redeem_live
  redeem store token now later = elim (Map.get (digest c token) store.current) [
    | none ↦ (store, redeem_retired store (digest c token) later)
    | some e ↦
        if leb e.1 now
        then (
          record store { current = Map.remove (digest c token) store.current },
          redeem_retired store (digest c token) later,
        )
        else redeem_live store (digest c token) e.0 e.1
  ]

  unfoldable pub retire : RefreshStore → Bytes → Bytes → Instant → Reads → RefreshStore
  unfolding digest
  retire store old_token upstream_id now r =
      let key = digest c old_token in
      let (inner, has_room) = sweep_and_check_capacity now store.retired key in
      record {
        current = Map.remove key store.current;
        retired =
            if has_room
            then Map.insert key (upstream_id, expires_after r retired_refresh_ttl) inner
            else inner;
      }

  unfoldable pub discard : RefreshStore → Bytes → RefreshStore
  unfolding digest
  discard store old_token = record store { current = Map.remove (digest c old_token) store.current }

  unfoldable pub take : RefreshStore → Bytes → RefreshStore × Option (Bytes × Bytes)
  unfolding digest
  take store token =
      let (rest, found) = take_entry (digest c token) store.current in
      (record store { current = rest }, found >>= λ e. some (e.0.client_id, e.0.upstream_id))

-- `Drop for InFlightGuard`: an entry that is still in flight becomes active again.
unfoldable pub drop_guard : RefreshStore → Bytes → RefreshStore
drop_guard store key = elim (Map.get key store.current) [
  | none ↦ store
  | some e ↦ elim e.0.state [
    | active ↦ store
    | in_flight ↦ record store {
      current = Map.insert key (record e.0 { state = active }, e.1) store.current;
    }
  ]
]

unfoldable pub delete_by_digest : RefreshStore → Bytes → RefreshStore
delete_by_digest store key = record store { current = Map.remove key store.current }

unfoldable pub remove_by_upstream : RefreshStore → Bytes → RefreshStore
remove_by_upstream store upstream_id = record store {
  current = retain (λ _ e. not (e.0.upstream_id == upstream_id)) store.current;
}

unfoldable pub live_client_ids : RefreshStore → Instant → List Bytes
live_client_ids store now = map (λ e. e.1.0.client_id) (filter (λ e. ltb now e.1.1) store.current)
