-- ===== src/OauthProxy/Tokens.antt =====
-- store.rs, `TokenStore`: the proxy access tokens, keyed by their digests.
pub mod Resolution
use ruprogress_mcp.Std.Map.{HashMap, retain, take_entry}
use ruprogress_mcp.Std.Clock.{Duration, Instant, Reads}
use ruprogress_mcp.OauthProxy.Crypto.{Crypto, digest, mint_opaque_token}
use ruprogress_mcp.OauthProxy.Capacity.{expires_after, sweep_and_check_capacity}
use ruprogress_mcp.Base.{
  Bytes, List, Option, codes, filter, if◌then◌else◌, leb, ltb, map, none, not, some, ◌==◌, ◌>>=◌,
  bytes_eq,
}
use ruprogress_mcp.Std.Map

pub record TokenEntry : Type 0 where
  pub upstream_id : Bytes
  pub client_id : Bytes

abbrev pub TokenStore : Type 0
TokenStore = HashMap Bytes (TokenEntry × Instant)

module _ (c : Crypto) where
  -- The token and its digest. `now` is read by the sweep, `r` when the entry's end is set.
  unfoldable pub mint :
      TokenStore
      → Bytes
      → Bytes
      → Duration
      → Option Bytes
      → Instant
      → Reads
      → TokenStore × Option (Bytes × Bytes)
  unfolding digest mint_opaque_token
  mint store client_id upstream_id ttl rng now r =
      elim (mint_opaque_token c (codes "rup_at_") rng) [
        | none ↦ (store, none)
        | some token ↦
            let key = digest c token in
            let (inner, has_room) = sweep_and_check_capacity now store key in
            if has_room
            then (
              Map.insert key
                  (record { upstream_id = upstream_id; client_id = client_id }, expires_after r ttl)
                  inner,
              some (token, key),
            )
            else (inner, none)
      ]

  unfoldable pub resolve : TokenStore → Bytes → Instant → TokenStore × Option TokenEntry
  unfolding digest
  resolve store token now = elim (Map.get (digest c token) store) [
    | none ↦ (store, none)
    | some e ↦ if leb e.1 now then (Map.remove (digest c token) store, none) else (store, some e.0)
  ]

  unfoldable pub take : TokenStore → Bytes → TokenStore × Option TokenEntry
  unfolding digest
  take store token =
      let (rest, found) = take_entry (digest c token) store in (rest, found >>= λ e. some e.0)

unfoldable pub delete_by_digest : TokenStore → Bytes → TokenStore
delete_by_digest store key = Map.remove key store

unfoldable pub remove_by_upstream : TokenStore → Bytes → TokenStore
remove_by_upstream store upstream_id = retain (λ _ e. not (e.0.upstream_id == upstream_id)) store

-- The clients of unexpired tokens.
unfoldable pub live_client_ids : TokenStore → Instant → List Bytes
live_client_ids store now = map (λ e. e.1.0.client_id) (filter (λ e. ltb now e.1.1) store)
