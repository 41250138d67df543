-- ===== src/OauthProxy/State/Stores.antt =====
-- Every operation of a store keeps its maps well formed.
use ruprogress_mcp.Std.Map.{HashMap, insert-Distinct, len-insert}
use ruprogress_mcp.Std.Clock.{Duration, Instant, Reads}
use ruprogress_mcp.OauthProxy.Upstream.{UpstreamStore, UpstreamTokenSet, session_deadline}
use ruprogress_mcp.OauthProxy.Transactions.{Transaction, TransactionStore, transaction_ttl}
use ruprogress_mcp.OauthProxy.Tokens.{TokenEntry, TokenStore}
use ruprogress_mcp.OauthProxy.Registry.Eviction.{IsRegistry}
use ruprogress_mcp.OauthProxy.Registry.{ClientRegistry, Entry}
use ruprogress_mcp.OauthProxy.Refresh.{RefreshStore}
use ruprogress_mcp.OauthProxy.Crypto.{Crypto, digest, hex_encode, mint_opaque_token}
use ruprogress_mcp.OauthProxy.Codes.{CodeStore, ConsumedRecord, PendingCode, code_ttl}
use ruprogress_mcp.OauthProxy.Capacity.{
  IsStore, admit-IsStore, expires_after, remove-IsStore, sweep-IsStore,
}
use ruprogress_mcp.Base.{
  Bytes, Eq, Option, Option-cases, [], arith, bytes_eq, codes, inl, inr, none, some, ◌≡◌,
}
use ruprogress_mcp.Std.Map
use ruprogress_mcp.OauthProxy.Tokens
use ruprogress_mcp.OauthProxy.Upstream
use ruprogress_mcp.OauthProxy.Codes
use ruprogress_mcp.OauthProxy.Transactions
use ruprogress_mcp.OauthProxy.Registry

pub touch-IsRegistry :
    (registry : ClientRegistry) (client_id : Bytes) (now : Instant)
    → IsRegistry registry
    → IsRegistry (Registry.touch registry client_id now)
unfolding Registry.touch
touch-IsRegistry registry client_id now v = elim (Option-cases (Map.get client_id registry)) [
  | inl missing ↦ ground (arith, missing, v)
  | inr (entry, found) ↦
      let seen : Entry = record entry { last_seen = now } in
      let written : IsRegistry (Map.insert client_id seen registry) = record {
        distinct = insert-Distinct client_id seen registry v.distinct;
        bounded = ground (arith, found, len-insert client_id seen registry, v.bounded);
      } in
      ground (arith, found, written)
]

module _ {ℓ} {K V : Type ℓ} ⦃e : Eq K⦄ where
  -- A write over a key that is there.
  pub overwrite-IsStore :
      (key : K) (v w : V) (m : HashMap K V)
      → Map.get key m ≡ some w
      → IsStore m
      → IsStore (Map.insert key v m)
  overwrite-IsStore key v w m found s = record {
    distinct = insert-Distinct key v m s.distinct;
    bounded = ground (arith, found, len-insert key v m, s.bounded);
  }

module _ (c : Crypto) where
  pub create-IsStore :
      (store : TransactionStore) (transaction : Transaction) (rng : Option Bytes) (now : Instant)
      (r : Reads)
      → IsStore store
      → IsStore (Transactions.create c store transaction rng now r).0
  unfolding Transactions.create
  create-IsStore store transaction rng now r s = elim (Option-cases (mint_opaque_token c [] rng)) [
    | inl failed ↦ ground (arith, failed, s)
    | inr (id, minted) ↦ ground (
      arith,
      minted,
      sweep-IsStore now store (digest c id) s,
      admit-IsStore now store (digest c id) (transaction, expires_after r transaction_ttl) s,
    )
  ]

  pub mint_token-IsStore :
      (store : TokenStore) (client_id upstream_id : Bytes) (ttl : Duration) (rng : Option Bytes)
      (now : Instant) (r : Reads)
      → IsStore store
      → IsStore (Tokens.mint c store client_id upstream_id ttl rng now r).0
  unfolding Tokens.mint
  mint_token-IsStore store client_id upstream_id ttl rng now r s =
      elim (Option-cases (mint_opaque_token c (codes "rup_at_") rng)) [
        | inl failed ↦ ground (arith, failed, s)
        | inr (token, minted) ↦
            let entry : TokenEntry = record { upstream_id = upstream_id; client_id = client_id } in
            ground (
              arith,
              minted,
              sweep-IsStore now store (digest c token) s,
              admit-IsStore now store (digest c token) (entry, expires_after r ttl) s,
            )
      ]

  pub resolve-IsStore :
      (store : TokenStore) (token : Bytes) (now : Instant)
      → IsStore store
      → IsStore (Tokens.resolve c store token now).0
  unfolding Tokens.resolve
  resolve-IsStore store token now s = ground (arith, s, remove-IsStore (digest c token) store s)

pub insert-IsStore :
    (store : UpstreamStore) (set : UpstreamTokenSet) (rng : Option Bytes) (r : Reads)
    (now : Instant)
    → IsStore store
    → IsStore (Upstream.insert store set rng r now).0
unfolding Upstream.insert
insert-IsStore store set none r now s = s
insert-IsStore store set (some bytes) r now s = ground (
  arith,
  sweep-IsStore now store (hex_encode bytes) s,
  admit-IsStore now store (hex_encode bytes) (set, session_deadline r set) s,
)

pub replace-IsStore :
    (store : UpstreamStore) (id : Bytes) (set : UpstreamTokenSet) (now : Instant) (r : Reads)
    → IsStore store
    → IsStore (Upstream.replace store id set now r).0
unfolding Upstream.replace
replace-IsStore store id set now r s = elim (Option-cases (Map.get id store)) [
  | inl missing ↦ ground (arith, missing, s)
  | inr (e, found) ↦
      ground (arith, found, s, overwrite-IsStore id (set, session_deadline r set) e store found s)
]

-- The maps of the code store that are bounded.
pub record IsCodes (store : CodeStore) : Type 0 where
  pub pending : IsStore store.pending
  pub consumed : IsStore store.consumed

pub record IsRefresh (store : RefreshStore) : Type 0 where
  pub current : IsStore store.current
  pub retired : IsStore store.retired

module _ (c : Crypto) where
  pub mint_code-IsCodes :
      (store : CodeStore) (client_id redirect_uri code_challenge : Bytes)
      (upstream : UpstreamTokenSet) (rng : Option Bytes) (now : Instant) (r : Reads)
      → IsCodes store
      → IsCodes (Codes.mint c store client_id redirect_uri code_challenge upstream rng now r).0
  unfolding Codes.mint
  mint_code-IsCodes store client_id redirect_uri code_challenge upstream rng now r s =
      elim (Option-cases (mint_opaque_token c (codes "rup_ac_") rng)) [
        | inl failed ↦ ground (arith, failed, s)
        | inr (code, minted) ↦
            let entry : PendingCode = record {
              client_id = client_id;
              redirect_uri = redirect_uri;
              code_challenge = code_challenge;
            } in
            record {
              pending = ground (
                arith,
                minted,
                sweep-IsStore now store.pending (digest c code) s.pending,
                admit-IsStore now store.pending (digest c code) (entry, expires_after r code_ttl)
                    s.pending,
              );
              consumed = ground (arith, minted, s.consumed);
            }
      ]

  pub mark_consumed-IsCodes :
      (store : CodeStore) (code minted_token_digest : Bytes) (minted_refresh_digest : Option Bytes)
      (upstream_id : Bytes) (now : Instant) (r : Reads)
      → IsCodes store
      → IsCodes (
          Codes.mark_consumed c store code minted_token_digest minted_refresh_digest upstream_id now
            r)
  unfolding Codes.mark_consumed
  mark_consumed-IsCodes store code minted_token_digest minted_refresh_digest upstream_id now r s =
      let consumed : ConsumedRecord = record {
        minted_token_digest = minted_token_digest;
        minted_refresh_digest = minted_refresh_digest;
        upstream_id = upstream_id;
      } in
      record {
        pending = s.pending;
        consumed = ground (
          arith,
          sweep-IsStore now store.consumed (digest c code) s.consumed,
          admit-IsStore now store.consumed (digest c code) (consumed, expires_after r code_ttl)
              s.consumed,
        );
      }
