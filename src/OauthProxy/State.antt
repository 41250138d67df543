-- ===== src/OauthProxy/State.antt =====
-- store.rs, `ProxyState`: the stores that the endpoints share, and what spans several of them.
pub mod Sessions
pub mod Sweep
pub mod Gone
pub mod Stores
pub mod RefreshStores
pub mod Reachable
pub mod Invariant
use ruprogress_mcp.Std.Clock.{Instant}
use ruprogress_mcp.OauthProxy.Upstream.{UpstreamStore, UpstreamTokenSet}
use ruprogress_mcp.OauthProxy.Transactions.{TransactionStore}
use ruprogress_mcp.OauthProxy.Tokens.{TokenStore}
use ruprogress_mcp.OauthProxy.Registry.{ClientRegistration, ClientRegistry}
use ruprogress_mcp.OauthProxy.Refresh.{RefreshStore}
use ruprogress_mcp.OauthProxy.Codes.{CodeStore}
use ruprogress_mcp.Base.{Bytes, List, Option, [], bytes_eq, map, none, some, ◌++◌, ◌∷◌}
use ruprogress_mcp.OauthProxy.Registry
use ruprogress_mcp.OauthProxy.Tokens
use ruprogress_mcp.OauthProxy.Refresh
use ruprogress_mcp.OauthProxy.Upstream

pub record ProxyState : Type 0 where
  pub registry : ClientRegistry
  pub transactions : TransactionStore
  pub codes : CodeStore
  pub tokens : TokenStore
  pub upstream_tokens : UpstreamStore
  pub refresh_tokens : RefreshStore

abbrev pub new : ProxyState
new = record {
  registry = [];
  transactions = [];
  codes = record { pending = []; upstream = []; consumed = [] };
  tokens = [];
  upstream_tokens = [];
  refresh_tokens = record { current = []; retired = [] };
}

-- The clock is read by the two collections of live clients, by the sweep and when the client is
-- stored.
pub record RegisterReads : Type 0 where
  pub tokens_at : Instant
  pub refresh_at : Instant
  pub sweep_at : Instant
  pub stored_at : Instant

unfoldable pub live_clients : ProxyState → RegisterReads → List Bytes
live_clients p t =
    Tokens.live_client_ids p.tokens t.tokens_at
    ++ Refresh.live_client_ids p.refresh_tokens t.refresh_at

unfoldable pub register_client :
    ProxyState
    → List Bytes
    → Option Bytes
    → Option Bytes
    → RegisterReads
    → ProxyState × Option ClientRegistration
unfolding live_clients
register_client p redirect_uris client_name rng t =
    let (registry, registration) =
      Registry.register p.registry redirect_uris client_name (live_clients p t) rng t.sweep_at
        t.stored_at in
    (record p { registry = registry }, registration)

-- The proxy tokens of a session go with it.
unfoldable pub purge_tokens : ProxyState → Bytes → ProxyState
purge_tokens p upstream_id = record p {
  tokens = Tokens.remove_by_upstream p.tokens upstream_id;
  refresh_tokens = Refresh.remove_by_upstream p.refresh_tokens upstream_id;
}

unfoldable pub take_session : ProxyState → Bytes → ProxyState × Option UpstreamTokenSet
unfolding purge_tokens
take_session p upstream_id =
    let (rest, found) = Upstream.take p.upstream_tokens upstream_id in
    elim found [
      | none ↦ (record p { upstream_tokens = rest }, none)
      | some set ↦ (purge_tokens (record p { upstream_tokens = rest }) upstream_id, some set)
    ]

unfoldable pub purge_all : ProxyState → List (Bytes × UpstreamTokenSet) → ProxyState
unfolding purge_tokens
purge_all p [] = p
purge_all p ((upstream_id, _) ∷ swept) = purge_all (purge_tokens p upstream_id) swept

unfoldable pub sweep_expired_sessions : ProxyState → Instant → ProxyState × List UpstreamTokenSet
unfolding purge_all
sweep_expired_sessions p now =
    let (rest, swept) = Upstream.sweep_expired p.upstream_tokens now in
    (purge_all (record p { upstream_tokens = rest }) swept, map (λ e. e.1) swept)
