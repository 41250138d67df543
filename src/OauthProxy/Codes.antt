-- ===== src/OauthProxy/Codes.antt =====
-- store.rs, `CodeStore`: authorization codes, keyed by their digests. The store has three maps,
-- each under its own lock, so a redemption is made of the parts between which another request may
-- run: `look_up`, then either `replay` or `claim`.
pub mod Redemption
pub mod SingleUse
pub mod Retention
use ruprogress_mcp.OauthProxy.Pkce.{verify}
use ruprogress_mcp.Std.Map.{HashMap}
use ruprogress_mcp.Std.Clock.{Duration, Instant, Reads, from_mins}
use ruprogress_mcp.OauthProxy.Upstream.{UpstreamTokenSet}
use ruprogress_mcp.OauthProxy.Crypto.{Crypto, digest, mint_opaque_token}
use ruprogress_mcp.OauthProxy.Capacity.{expires_after, sweep_and_check_capacity}
use ruprogress_mcp.Base.{
  Bool, Bytes, Option, bytes_eq, codes, if◌then◌else◌, leb, ltb, none, some, ◌&&◌, ◌==◌,
}
use ruprogress_mcp.Std.Map

pub record PendingCode : Type 0 where
  pub client_id : Bytes
  pub redirect_uri : Bytes
  pub code_challenge : Bytes

pub record ConsumedRecord : Type 0 where
  pub minted_token_digest : Bytes
  pub minted_refresh_digest : Option Bytes
  pub upstream_id : Bytes

abbrev pub code_ttl : Duration
code_ttl = from_mins 1

pub record CodeStore : Type 0 where
  pub pending : HashMap Bytes (PendingCode × Instant)
  pub upstream : HashMap Bytes UpstreamTokenSet
  pub consumed : HashMap Bytes (ConsumedRecord × Instant)

pub data RedeemOutcome : Type 0 where
  invalid mismatch : RedeemOutcome
  replayed : Bytes → Option Bytes → Bytes → RedeemOutcome
  ok : UpstreamTokenSet → RedeemOutcome

-- Under the lock of `pending`: the entry of a code that has not expired. An expired one goes.
unfoldable pub look_up : CodeStore → Bytes → Instant → CodeStore × Option PendingCode
look_up store key now = elim (Map.get key store.pending) [
  | none ↦ (store, none)
  | some e ↦
      if leb e.1 now
      then (record store { pending = Map.remove key store.pending }, none)
      else (store, some e.0)
]

-- Under the lock of `consumed`.
unfoldable pub replay : CodeStore → Bytes → Instant → RedeemOutcome
replay store key now = elim (Map.get key store.consumed) [
  | none ↦ invalid
  | some e ↦
      if ltb now e.1
      then replayed e.0.minted_token_digest e.0.minted_refresh_digest e.0.upstream_id
      else invalid
]

-- Under the lock of `pending`, then under that of `upstream`.
unfoldable pub claim : CodeStore → Bytes → CodeStore × RedeemOutcome
claim store key = elim (Map.get key store.upstream) [
  | none ↦ (
    record store {
      pending = Map.remove key store.pending;
      upstream = Map.remove key store.upstream;
    },
    invalid,
  )
  | some set ↦ (
    record store {
      pending = Map.remove key store.pending;
      upstream = Map.remove key store.upstream;
    },
    ok set,
  )
]

module _ (c : Crypto) where
  unfoldable pub mint :
      CodeStore
      → Bytes
      → Bytes
      → Bytes
      → UpstreamTokenSet
      → Option Bytes
      → Instant
      → Reads
      → CodeStore × Option Bytes
  unfolding digest mint_opaque_token
  mint store client_id redirect_uri code_challenge upstream rng now r =
      elim (mint_opaque_token c (codes "rup_ac_") rng) [
        | none ↦ (store, none)
        | some code ↦
            let key = digest c code in
            let entry : PendingCode = record {
              client_id = client_id;
              redirect_uri = redirect_uri;
              code_challenge = code_challenge;
            } in
            let (pending, has_room) = sweep_and_check_capacity now store.pending key in
            if has_room
            then (
              record store {
                pending = Map.insert key (entry, expires_after r code_ttl) pending;
                upstream = Map.insert key upstream store.upstream;
              },
              some code,
            )
            else (record store { pending = pending }, none)
      ]

  -- Do the presented values fit the code's bindings?
  unfoldable pub is_bound : PendingCode → Bytes → Bytes → Bytes → Bool
  is_bound entry client_id redirect_uri code_verifier =
      entry.client_id == client_id
      && entry.redirect_uri == redirect_uri
      && verify c entry.code_challenge code_verifier

  -- What follows the look-up.
  unfoldable pub conclude :
      CodeStore
      → Bytes
      → Option PendingCode
      → Bytes
      → Bytes
      → Bytes
      → Instant
      → CodeStore × RedeemOutcome
  unfolding replay claim is_bound
  conclude store key none client_id redirect_uri code_verifier later =
      (store, replay store key later)
  conclude store key (some entry) client_id redirect_uri code_verifier later =
      if is_bound entry client_id redirect_uri code_verifier
      then claim store key
      else (store, mismatch)

  -- `now` is read by the look-up, `later` by the replay.
  unfoldable pub redeem :
      CodeStore → Bytes → Bytes → Bytes → Bytes → Instant → Instant → CodeStore × RedeemOutcome
  unfolding digest look_up conclude
  redeem store code client_id redirect_uri code_verifier now later =
      let (looked, entry) = look_up store (digest c code) now in
      conclude looked (digest c code) entry client_id redirect_uri code_verifier later

  unfoldable pub mark_consumed :
      CodeStore → Bytes → Bytes → Option Bytes → Bytes → Instant → Reads → CodeStore
  unfolding digest
  mark_consumed store code minted_token_digest minted_refresh_digest upstream_id now r =
      let key = digest c code in
      let (inner, has_room) = sweep_and_check_capacity now store.consumed key in
      let consumed : ConsumedRecord = record {
        minted_token_digest = minted_token_digest;
        minted_refresh_digest = minted_refresh_digest;
        upstream_id = upstream_id;
      } in
      record store {
        consumed =
            if has_room then Map.insert key (consumed, expires_after r code_ttl) inner else inner;
      }
