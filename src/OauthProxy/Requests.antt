-- ===== src/OauthProxy/Requests.antt =====
-- Every request that reaches the proxy, as one type: what the endpoints and the middleware do to
-- the shared state. The refresh and the callback are cut where they await Redmine's tokens. The
-- other awaits are run over in one step: those of `revoke_token`, of the reuse kill and of `vanish`
-- (endpoints.rs), which send a revocation, and that of `require_proxy_bearer` (proxy.rs), which
-- introspects. A refresh that is cancelled, its guard dropped early, is no request here.
pub mod Reached
pub mod Invariant
use ruprogress_mcp.Std.Clock.{Duration, Instant}
use ruprogress_mcp.RedmineClient.Model.{Introspection, OauthToken}
use ruprogress_mcp.OauthProxy.Crypto.{Crypto}
use ruprogress_mcp.Base.{Bytes, List, Option, Result, [], bytes_eq, ◌∷◌}
use ruprogress_mcp.Auth.Verifier.{Refusal}
use ruprogress_mcp.Auth.Bearer.{verdict}
use ruprogress_mcp.OauthProxy.State.{ProxyState}
use ruprogress_mcp.OauthProxy.Flow.{Flow}
use ruprogress_mcp.OauthProxy.Transactions.{Transaction}
use ruprogress_mcp.OauthProxy.CodeGrant.{CodeGrantReads, grant_code}
use ruprogress_mcp.OauthProxy.RefreshGrant.{BeginReads, FinishReads, Pending, begin_refresh, finish}
use ruprogress_mcp.OauthProxy.Revoke.{revoke_token}
use ruprogress_mcp.OauthProxy.Register
use ruprogress_mcp.OauthProxy.Register.{RegisterRequest}
use ruprogress_mcp.OauthProxy.State.{RegisterReads}
use ruprogress_mcp.OauthProxy.Authorize.{
  Site, AuthorizeQuery, AuthorizeReads, CallbackQuery, CallbackReads, authorize,
}
use ruprogress_mcp.OauthProxy.Callback.{callback, finish_callback}
use ruprogress_mcp.Auth.Proxy.{ProxyReads, require_proxy_bearer}

pub data Request : Type 0 where
  registers_client : RegisterRequest → Option Bytes → RegisterReads → Request
  authorizes : AuthorizeQuery → AuthorizeReads → Request
  calls_back : CallbackQuery → Instant → Request
  ends_callback : Transaction → Option OauthToken → CallbackReads → Request
  grants_code : Bytes → Bytes → Bytes → Bytes → CodeGrantReads → Request
  begins_refresh : Bytes → Bytes → BeginReads → Request
  ends_refresh : Pending → Option OauthToken → FinishReads → Request
  revokes : Bytes → Request
  calls_tool : Duration → List Bytes → Result Introspection Refusal → ProxyReads → Request

module _ (c : Crypto) (site : Site) (to_str : Bytes → Option Bytes) where
  abbrev pub with_proxy : Flow → ProxyState → Flow
  with_proxy f p = record f { proxy = p }

  unfoldable pub handle : Flow → Request → Flow
  handle f (registers_client payload rng t) =
      with_proxy f (Register.register site.permits f.proxy payload rng t).0
  handle f (authorizes query t) = with_proxy f (authorize c site f.proxy query t).0
  handle f (calls_back query now) = with_proxy f (callback c site f.proxy query now).0
  handle f (ends_callback transaction answer t) =
      with_proxy f (finish_callback c site f.proxy transaction answer t).0
  handle f (grants_code code redirect_uri client_id code_verifier t) =
      (grant_code c f code redirect_uri client_id code_verifier t).0
  handle f (begins_refresh presented client_id t) = (begin_refresh c f presented client_id t).0
  handle f (ends_refresh pending answer t) = (finish c f pending answer t).0
  handle f (revokes presented) = revoke_token c f presented
  handle f (calls_tool ttl headers answer t) =
      let (p, cache, verdict) =
        require_proxy_bearer c to_str ttl f.proxy f.cache headers answer t in
      record f { proxy = p; cache = cache }

  unfoldable pub handle_all : Flow → List Request → Flow
  unfolding handle
  handle_all f [] = f
  handle_all f (request ∷ requests) = handle_all (handle f request) requests
