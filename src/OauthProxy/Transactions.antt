-- ===== src/OauthProxy/Transactions.antt =====
-- store.rs, `TransactionStore`: the rounds between /authorize and /auth/callback.
pub mod Use
use ruprogress_mcp.Std.Map.{HashMap, take_entry}
use ruprogress_mcp.Std.Clock.{Duration, Instant, Reads, from_mins}
use ruprogress_mcp.OauthProxy.Crypto.{Crypto, digest, mint_opaque_token}
use ruprogress_mcp.OauthProxy.Capacity.{expires_after, sweep_and_check_capacity}
use ruprogress_mcp.Base.{Bytes, List, Option, [], if◌then◌else◌, ltb, none, some, ◌>>=◌, bytes_eq}
use ruprogress_mcp.Std.Map

pub record Transaction : Type 0 where
  pub client_id : Bytes
  pub redirect_uri : Bytes
  pub code_challenge : Bytes
  pub scopes : List Bytes
  pub client_state : Option Bytes
  pub upstream_code_verifier : Bytes

abbrev pub transaction_ttl : Duration
transaction_ttl = from_mins 10

abbrev pub TransactionStore : Type 0
TransactionStore = HashMap Bytes (Transaction × Instant)

module _ (c : Crypto) where
  -- `now` is read by the sweep, `r` when the entry's end is set.
  unfoldable pub create :
      TransactionStore
      → Transaction
      → Option Bytes
      → Instant
      → Reads
      → TransactionStore × Option Bytes
  unfolding digest mint_opaque_token
  create store transaction rng now r = elim (mint_opaque_token c [] rng) [
    | none ↦ (store, none)
    | some id ↦
        let (inner, has_room) = sweep_and_check_capacity now store (digest c id) in
        if has_room
        then (
          Map.insert (digest c id) (transaction, expires_after r transaction_ttl) inner,
          some id,
        )
        else (inner, none)
  ]

  unfoldable pub take : TransactionStore → Bytes → Instant → TransactionStore × Option Transaction
  unfolding digest
  take store state now =
      let (rest, found) = take_entry (digest c state) store in
      (rest, found >>= λ e. if ltb now e.1 then some e.0 else none)
