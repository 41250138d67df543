-- ===== src/OauthProxy/State/Invariant.antt =====
-- Every state that the proxy can reach is well formed.
use ruprogress_mcp.OauthProxy.Upstream.{UpstreamStore}
use ruprogress_mcp.OauthProxy.Transactions.{TransactionStore}
use ruprogress_mcp.OauthProxy.Tokens.{TokenStore}
use ruprogress_mcp.OauthProxy.State.Stores.{
  IsCodes, IsRefresh, create-IsStore, insert-IsStore, mark_consumed-IsCodes, mint_code-IsCodes,
  mint_token-IsStore, replace-IsStore, resolve-IsStore, touch-IsRegistry,
}
use ruprogress_mcp.OauthProxy.State.Sessions.{IsProxy}
use ruprogress_mcp.OauthProxy.State.RefreshStores.{
  claim-IsCodes, drop_guard-IsRefresh, look_up-IsCodes, mint-IsRefresh, redeem-IsRefresh,
  retire-IsRefresh,
}
use ruprogress_mcp.OauthProxy.Registry.Eviction.{IsRegistry, register-IsRegistry}
use ruprogress_mcp.OauthProxy.Registry.{ClientRegistry}
use ruprogress_mcp.OauthProxy.Refresh.{RefreshStore}
use ruprogress_mcp.OauthProxy.Crypto.{Crypto, digest}
use ruprogress_mcp.OauthProxy.Codes.{CodeStore}
use ruprogress_mcp.OauthProxy.Capacity.{IsStore, remove-IsStore, retain-IsStore}
use ruprogress_mcp.Base.{bytes_eq, arith}
use ruprogress_mcp.OauthProxy.Tokens
use ruprogress_mcp.OauthProxy.Refresh
use ruprogress_mcp.OauthProxy.Upstream
use ruprogress_mcp.OauthProxy.Transactions
use ruprogress_mcp.OauthProxy.State.Reachable.{
  looks_up, claims, retires, discards, drops_guard, then_step, start, Op, Reachable, creates,
  deletes_refresh, deletes_token, inserts_session, marks_consumed, mints_code, mints_refresh,
  mints_token, purges_refresh, purges_tokens, redeems_refresh, registers, replaces_session,
  resolves, step, sweeps_sessions, takes_refresh, takes_session, takes_token, takes_transaction,
  touches,
}
use ruprogress_mcp.OauthProxy.State.{ProxyState, register_client, live_clients, new}

module _ (p : ProxyState) (v : IsProxy p) where
  with_tokens : (store : TokenStore) → IsStore store → IsProxy (record p { tokens = store })
  with_tokens store s = record {
    registry = v.registry;
    transactions = v.transactions;
    pending = v.pending;
    consumed = v.consumed;
    tokens = s;
    upstream_tokens = v.upstream_tokens;
    current = v.current;
    retired = v.retired;
  }

  with_sessions :
      (store : UpstreamStore) → IsStore store → IsProxy (record p { upstream_tokens = store })
  with_sessions store s = record {
    registry = v.registry;
    transactions = v.transactions;
    pending = v.pending;
    consumed = v.consumed;
    tokens = v.tokens;
    upstream_tokens = s;
    current = v.current;
    retired = v.retired;
  }

  with_transactions :
      (store : TransactionStore) → IsStore store → IsProxy (record p { transactions = store })
  with_transactions store s = record {
    registry = v.registry;
    transactions = s;
    pending = v.pending;
    consumed = v.consumed;
    tokens = v.tokens;
    upstream_tokens = v.upstream_tokens;
    current = v.current;
    retired = v.retired;
  }

  with_registry :
      (store : ClientRegistry) → IsRegistry store → IsProxy (record p { registry = store })
  with_registry store s = record {
    registry = s;
    transactions = v.transactions;
    pending = v.pending;
    consumed = v.consumed;
    tokens = v.tokens;
    upstream_tokens = v.upstream_tokens;
    current = v.current;
    retired = v.retired;
  }

  with_codes : (store : CodeStore) → IsCodes store → IsProxy (record p { codes = store })
  with_codes store s = record {
    registry = v.registry;
    transactions = v.transactions;
    pending = s.pending;
    consumed = s.consumed;
    tokens = v.tokens;
    upstream_tokens = v.upstream_tokens;
    current = v.current;
    retired = v.retired;
  }

  with_refreshes :
      (store : RefreshStore) → IsRefresh store → IsProxy (record p { refresh_tokens = store })
  with_refreshes store s = record {
    registry = v.registry;
    transactions = v.transactions;
    pending = v.pending;
    consumed = v.consumed;
    tokens = v.tokens;
    upstream_tokens = v.upstream_tokens;
    current = s.current;
    retired = s.retired;
  }

  abbrev codes_of : IsCodes p.codes
  codes_of = record { pending = v.pending; consumed = v.consumed }

  abbrev refreshes_of : IsRefresh p.refresh_tokens
  refreshes_of = record { current = v.current; retired = v.retired }

new-IsProxy : IsProxy new
new-IsProxy = record {
  registry = record { distinct = tt; bounded = omega arith };
  transactions = record { distinct = tt; bounded = omega arith };
  pending = record { distinct = tt; bounded = omega arith };
  consumed = record { distinct = tt; bounded = omega arith };
  tokens = record { distinct = tt; bounded = omega arith };
  upstream_tokens = record { distinct = tt; bounded = omega arith };
  current = record { distinct = tt; bounded = omega arith };
  retired = record { distinct = tt; bounded = omega arith };
}

-- Each operation keeps every store within its bound and without a key twice.
pub step-IsProxy : (c : Crypto) (o : Op) (p : ProxyState) → IsProxy p → IsProxy (step c o p)
unfolding step register_client
step-IsProxy c (registers redirect_uris client_name rng t) p v = with_registry p v _ (
    register-IsRegistry p.registry redirect_uris client_name (live_clients p t) rng t.sweep_at
      t.stored_at v.registry)
step-IsProxy c (touches id now) p v =
    with_registry p v _ (touch-IsRegistry p.registry id now v.registry)
step-IsProxy c (creates transaction rng now r) p v =
    with_transactions p v _ (create-IsStore c p.transactions transaction rng now r v.transactions)
step-IsProxy c (takes_transaction state now) p v =
    with_transactions p v _
      (unfold Transactions.take in remove-IsStore (digest c state) p.transactions v.transactions)
step-IsProxy c (mints_code client_id redirect_uri code_challenge upstream rng now r) p v =
    with_codes p v _ (
      mint_code-IsCodes c p.codes client_id redirect_uri code_challenge upstream rng now r
        (codes_of p v))
step-IsProxy c (looks_up key now) p v =
    with_codes p v _ (look_up-IsCodes p.codes key now (codes_of p v))
step-IsProxy c (claims key) p v = with_codes p v _ (claim-IsCodes p.codes key (codes_of p v))
step-IsProxy c (marks_consumed code token refresh id now r) p v =
    with_codes p v _ (mark_consumed-IsCodes c p.codes code token refresh id now r (codes_of p v))
step-IsProxy c (mints_token client_id upstream_id ttl rng now r) p v =
    with_tokens p v _ (mint_token-IsStore c p.tokens client_id upstream_id ttl rng now r v.tokens)
step-IsProxy c (resolves token now) p v =
    with_tokens p v _ (resolve-IsStore c p.tokens token now v.tokens)
step-IsProxy c (takes_token token) p v =
    with_tokens p v _ (unfold Tokens.take in remove-IsStore (digest c token) p.tokens v.tokens)
step-IsProxy c (deletes_token key) p v =
    with_tokens p v _ (unfold Tokens.delete_by_digest in remove-IsStore key p.tokens v.tokens)
step-IsProxy c (purges_tokens id) p v =
    with_tokens p v _ (unfold Tokens.remove_by_upstream in retain-IsStore _ p.tokens v.tokens)
step-IsProxy c (inserts_session set rng r now) p v =
    with_sessions p v _ (insert-IsStore p.upstream_tokens set rng r now v.upstream_tokens)
step-IsProxy c (replaces_session id set now r) p v =
    with_sessions p v _ (replace-IsStore p.upstream_tokens id set now r v.upstream_tokens)
step-IsProxy c (takes_session id) p v =
    with_sessions p v _
      (unfold Upstream.take in remove-IsStore id p.upstream_tokens v.upstream_tokens)
step-IsProxy c (sweeps_sessions now) p v =
    with_sessions p v _
      (unfold Upstream.sweep_expired in retain-IsStore _ p.upstream_tokens v.upstream_tokens)
step-IsProxy c (mints_refresh client_id upstream_id rng now r) p v =
    with_refreshes p v _
      (mint-IsRefresh c p.refresh_tokens client_id upstream_id rng now r (refreshes_of p v))
step-IsProxy c (redeems_refresh token now later) p v =
    with_refreshes p v _ (redeem-IsRefresh c p.refresh_tokens token now later (refreshes_of p v))
step-IsProxy c (retires token id now r) p v =
    with_refreshes p v _ (retire-IsRefresh c p.refresh_tokens token id now r (refreshes_of p v))
step-IsProxy c (discards token) p v = with_refreshes p v _ (
    unfold Refresh.discard in
    record {
      current = remove-IsStore (digest c token) p.refresh_tokens.current v.current;
      retired = v.retired;
    })
step-IsProxy c (takes_refresh token) p v = with_refreshes p v _ (
    unfold Refresh.take in
    record {
      current = remove-IsStore (digest c token) p.refresh_tokens.current v.current;
      retired = v.retired;
    })
step-IsProxy c (drops_guard key) p v =
    with_refreshes p v _ (drop_guard-IsRefresh p.refresh_tokens key (refreshes_of p v))
step-IsProxy c (deletes_refresh key) p v = with_refreshes p v _ (
    unfold Refresh.delete_by_digest in
    record { current = remove-IsStore key p.refresh_tokens.current v.current; retired = v.retired })
step-IsProxy c (purges_refresh id) p v = with_refreshes p v _ (
    unfold Refresh.remove_by_upstream in
    record { current = retain-IsStore _ p.refresh_tokens.current v.current; retired = v.retired })

-- Every state that is reached from the empty one, by whatever operations in whatever order, holds
-- at most `max_clients` clients and `max_entries` entries in each other store but that of the
-- upstream tokens that wait for their code, and no key twice.
pub Reachable-IsProxy : (c : Crypto) (p : ProxyState) → Reachable c p → IsProxy p
Reachable-IsProxy c p start = new-IsProxy
Reachable-IsProxy c p (then_step {p = q} r o) = step-IsProxy c o q (Reachable-IsProxy c q r)
