-- ===== src/OauthProxy/State/RefreshStores.antt =====
-- Every operation of the refresh store and every part of a code's redemption keep their maps well
-- formed.
use ruprogress_mcp.Std.Clock.{Instant, Reads}
use ruprogress_mcp.OauthProxy.Upstream.{refresh_ttl}
use ruprogress_mcp.OauthProxy.Refresh.{
  RefreshOwner, RefreshStore, active, in_flight, retired_refresh_ttl,
}
use ruprogress_mcp.OauthProxy.Crypto.{Crypto, digest, mint_opaque_token}
use ruprogress_mcp.OauthProxy.Codes.{CodeStore}
use ruprogress_mcp.OauthProxy.Capacity.{admit-IsStore, expires_after, remove-IsStore, sweep-IsStore}
use ruprogress_mcp.Base.{Bytes, Option, Option-cases, arith, bytes_eq, codes, inl, inr}
use ruprogress_mcp.Std.Map
use ruprogress_mcp.OauthProxy.Refresh
use ruprogress_mcp.OauthProxy.Codes
use ruprogress_mcp.OauthProxy.State.Stores.{IsRefresh, IsCodes, overwrite-IsStore}

pub look_up-IsCodes :
    (store : CodeStore) (key : Bytes) (now : Instant)
    → IsCodes store
    → IsCodes (Codes.look_up store key now).0
unfolding Codes.look_up
look_up-IsCodes store key now s =
    let removed : IsCodes (record store { pending = Map.remove key store.pending }) = record {
      pending = remove-IsStore key store.pending s.pending;
      consumed = s.consumed;
    } in
    ground (arith, s, removed)

pub claim-IsCodes :
    (store : CodeStore) (key : Bytes) → IsCodes store → IsCodes (Codes.claim store key).0
unfolding Codes.claim
claim-IsCodes store key s =
    let removed : IsCodes (record store {
      pending = Map.remove key store.pending;
      upstream = Map.remove key store.upstream;
    }) =
      record { pending = remove-IsStore key store.pending s.pending; consumed = s.consumed } in
    ground (arith, removed)

module _ (c : Crypto) where
  pub mint-IsRefresh :
      (store : RefreshStore) (client_id upstream_id : Bytes) (rng : Option Bytes) (now : Instant)
      (r : Reads)
      → IsRefresh store
      → IsRefresh (Refresh.mint c store client_id upstream_id rng now r).0
  unfolding Refresh.mint
  mint-IsRefresh store client_id upstream_id rng now r s =
      elim (Option-cases (mint_opaque_token c (codes "rup_rt_") rng)) [
        | inl failed ↦ ground (arith, failed, s)
        | inr (token, minted) ↦
            let owner : RefreshOwner = record {
              client_id = client_id;
              upstream_id = upstream_id;
              state = active;
            } in
            record {
              current = ground (
                arith,
                minted,
                sweep-IsStore now store.current (digest c token) s.current,
                admit-IsStore now store.current (digest c token)
                    (owner, expires_after r refresh_ttl) s.current,
              );
              retired = ground (arith, minted, s.retired);
            }
      ]

  pub redeem-IsRefresh :
      (store : RefreshStore) (token : Bytes) (now later : Instant)
      → IsRefresh store
      → IsRefresh (Refresh.redeem c store token now later).0
  unfolding Refresh.redeem Refresh.redeem_live
  redeem-IsRefresh store token now later s =
      elim (Option-cases (Map.get (digest c token) store.current)) [
        | inl missing ↦ ground (arith, missing, s)
        | inr (e, found) ↦ record {
          current = ground (
            arith,
            found,
            s.current,
            remove-IsStore (digest c token) store.current s.current,
            overwrite-IsStore (digest c token) (record e.0 { state = in_flight }, e.1) e
                store.current found s.current,
          );
          retired = ground (arith, found, s.retired);
        }
      ]

  pub retire-IsRefresh :
      (store : RefreshStore) (old_token upstream_id : Bytes) (now : Instant) (r : Reads)
      → IsRefresh store
      → IsRefresh (Refresh.retire c store old_token upstream_id now r)
  unfolding Refresh.retire
  retire-IsRefresh store old_token upstream_id now r s = record {
    current = remove-IsStore (digest c old_token) store.current s.current;
    retired = ground (
      arith,
      sweep-IsStore now store.retired (digest c old_token) s.retired,
      admit-IsStore now store.retired (digest c old_token)
          (upstream_id, expires_after r retired_refresh_ttl) s.retired,
    );
  }

pub drop_guard-IsRefresh :
    (store : RefreshStore) (key : Bytes)
    → IsRefresh store
    → IsRefresh (Refresh.drop_guard store key)
unfolding Refresh.drop_guard
drop_guard-IsRefresh store key s = elim (Option-cases (Map.get key store.current)) [
  | inl missing ↦ ground (arith, missing, s)
  | inr (e, found) ↦ record {
    current = ground (
      arith,
      found,
      s.current,
      overwrite-IsStore key (record e.0 { state = active }, e.1) e store.current found s.current,
    );
    retired = ground (arith, found, s.retired);
  }
]
