-- ===== src/OauthProxy/Revoke.antt =====
-- endpoints.rs, `revoke`, from the decoded form on.
pub mod Session
pub mod Reached
use ruprogress_mcp.Std.Text.{starts_with}
use ruprogress_mcp.Std.Map.{HashMap}
use ruprogress_mcp.OauthProxy.Crypto.{Crypto}
use ruprogress_mcp.Base.{Bytes, [], bytes_eq, codes, if◌then◌else◌, none, some, ◌==◌}
use ruprogress_mcp.Std.Map
use ruprogress_mcp.OauthProxy.Tokens
use ruprogress_mcp.OauthProxy.Refresh
use ruprogress_mcp.OauthProxy.Flow.{Response, error, empty, Flow, kill_session, tokens}

abbrev pub access_token_prefix : Bytes
access_token_prefix = codes "rup_at_"

abbrev pub refresh_token_prefix : Bytes
refresh_token_prefix = codes "rup_rt_"

module _ (c : Crypto) where
  unfoldable pub revoke_access : Flow → Bytes → Flow
  revoke_access f token =
      let (store, entry) = Tokens.take c f.proxy.tokens token in
      let taken = record f { proxy = record f.proxy { tokens = store } } in
      elim entry [ none ↦ taken | some owner ↦ kill_session c taken owner.upstream_id ]

  unfoldable pub revoke_refresh : Flow → Bytes → Flow
  revoke_refresh f token =
      let (store, entry) = Refresh.take c f.proxy.refresh_tokens token in
      let taken = record f { proxy = record f.proxy { refresh_tokens = store } } in
      elim entry [ none ↦ taken | some (client_id, upstream_id) ↦ kill_session c taken upstream_id ]

  unfoldable pub revoke_token : Flow → Bytes → Flow
  unfolding revoke_access revoke_refresh
  revoke_token f token =
      if starts_with token access_token_prefix
      then revoke_access f token
      else if starts_with token refresh_token_prefix
      then revoke_refresh f token
      else f

  unfoldable pub revoke : Flow → HashMap Bytes Bytes → Flow × Response
  unfolding revoke_token
  revoke f fields = elim (Map.get (codes "token") fields) [
    | none ↦ (f, error 400 (codes "invalid_request"))
    | some token ↦
        if token == []
        then (f, error 400 (codes "invalid_request"))
        else (revoke_token f token, empty 200)
  ]
