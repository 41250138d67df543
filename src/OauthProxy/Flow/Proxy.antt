-- ===== src/OauthProxy/Flow/Proxy.antt =====
-- What ending a session does to the stores: in each case, what `take_session` does.
use ruprogress_mcp.OauthProxy.State.{take_session}
use ruprogress_mcp.OauthProxy.Flow.{
  Flow, drop_session, kill_session, revocation, revoke_upstream_and_purge,
}
use ruprogress_mcp.OauthProxy.Crypto.{Crypto}
use ruprogress_mcp.Base.{Bytes, [], arith, bytes_eq, none, some, ◌++◌, ◌∷◌, ◌≡◌}

module _ (c : Crypto) (f : Flow) (upstream_id : Bytes) where
  pub drop_session-proxy :
      (drop_session c f upstream_id).proxy ≡ (take_session f.proxy upstream_id).0
  unfolding drop_session
  drop_session-proxy = ground arith

  pub kill_session-proxy :
      (kill_session c f upstream_id).proxy ≡ (take_session f.proxy upstream_id).0
  unfolding kill_session revoke_upstream_and_purge
  kill_session-proxy = ground arith

  -- A killed session is revoked upstream by its refresh token if it has one, else by its access
  -- token, once; without the session nothing is asked of Redmine.
  pub kill_session-revoked :
      (kill_session c f upstream_id).revoked ≡ (elim (take_session f.proxy upstream_id).1 [
        | none ↦ f.revoked
        | some set ↦ f.revoked ++ revocation set ∷ []
      ])
  unfolding kill_session revoke_upstream_and_purge
  kill_session-revoked = ground arith
