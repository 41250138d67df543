-- ===== src/OauthProxy/Requests/Invariant.antt =====
-- No sequence of requests, with others between the parts of a callback or a refresh, breaks the
-- stores.
use ruprogress_mcp.OauthProxy.Requests.Reached.{
  authorize-Reachable, bearer-Reachable, callback-Reachable, finish_callback-Reachable,
  register-Reachable,
}
use ruprogress_mcp.OauthProxy.State.Sessions.{IsProxy}
use ruprogress_mcp.OauthProxy.State.Invariant.{Reachable-IsProxy}
use ruprogress_mcp.OauthProxy.Revoke.Reached.{revoke_token-Reachable}
use ruprogress_mcp.OauthProxy.RefreshGrant.Reached.{begin_refresh-Reachable, finish-Reachable}
use ruprogress_mcp.OauthProxy.CodeGrant.Reached.{grant_code-Reachable}
use ruprogress_mcp.OauthProxy.Crypto.{Crypto}
use ruprogress_mcp.Base.{Bytes, List, Option, bytes_eq, [], ◌∷◌, ◌≡◌}
use ruprogress_mcp.OauthProxy.State.Reachable.{Reachable, start}
use ruprogress_mcp.OauthProxy.State.{new}
use ruprogress_mcp.OauthProxy.Flow.{Flow}
use ruprogress_mcp.OauthProxy.Authorize.{Site}
use ruprogress_mcp.OauthProxy.Requests.{
  Request, handle, handle_all, registers_client, authorizes, calls_back, ends_callback, grants_code,
  begins_refresh, ends_refresh, revokes, calls_tool,
}

module _ (c : Crypto) (site : Site) (to_str : Bytes → Option Bytes) where
  handle-Reachable :
      (f : Flow) (request : Request)
      → Reachable c f.proxy
      → Reachable c (handle c site to_str f request).proxy
  unfolding handle
  handle-Reachable f (registers_client payload rng t) r =
      register-Reachable c site.permits f.proxy payload rng t r
  handle-Reachable f (authorizes query t) r = authorize-Reachable c site f.proxy query t r
  handle-Reachable f (calls_back query now) r = callback-Reachable c site f.proxy query now r
  handle-Reachable f (ends_callback transaction answer t) r =
      finish_callback-Reachable c site f.proxy transaction answer t r
  handle-Reachable f (grants_code code redirect_uri client_id code_verifier t) r =
      grant_code-Reachable c f code redirect_uri client_id code_verifier t r
  handle-Reachable f (begins_refresh presented client_id t) r =
      begin_refresh-Reachable c f presented client_id t r
  handle-Reachable f (ends_refresh pending answer t) r = finish-Reachable c f pending answer t r
  handle-Reachable f (revokes presented) r = revoke_token-Reachable c f presented r
  handle-Reachable f (calls_tool ttl headers answer t) r =
      bearer-Reachable c to_str ttl f.proxy f.cache headers answer t r

  handle_all-Reachable :
      (f : Flow) (requests : List Request)
      → Reachable c f.proxy
      → Reachable c (handle_all c site to_str f requests).proxy
  unfolding handle_all
  handle_all-Reachable f [] r = r
  handle_all-Reachable f (request ∷ requests) r =
      handle_all-Reachable (handle c site to_str f request) requests (handle-Reachable f request r)

  -- Whatever requests the server handles from its start, in whatever order, with others between
  -- the two parts of a callback or of a refresh, the registry holds at most `max_clients` clients
  -- and each other store but that of the upstream tokens that wait for their code at most
  -- `max_entries` entries, and no key occurs twice.
  pub handle_all-IsProxy :
      (f : Flow) (requests : List Request)
      → f.proxy ≡ new
      → IsProxy (handle_all c site to_str f requests).proxy
  handle_all-IsProxy f requests fresh =
      Reachable-IsProxy c _ (handle_all-Reachable f requests (rw (fresh) start))
