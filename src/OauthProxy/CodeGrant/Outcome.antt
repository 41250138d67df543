-- ===== src/OauthProxy/CodeGrant/Outcome.antt =====
-- What a code grant leaves behind on its way out.
use ruprogress_mcp.OauthProxy.Tokens.Resolution.{resolve-delete_by_digest}
use ruprogress_mcp.OauthProxy.State.Gone.{
  redeem_absent, take_session-absent, take_session-gone, take_session-unresolved,
}
use ruprogress_mcp.OauthProxy.State.{take_session}
use ruprogress_mcp.OauthProxy.Flow.Proxy.{drop_session-proxy}
use ruprogress_mcp.Std.Map.{Distinct, get-remove, remove-Distinct}
use ruprogress_mcp.Std.Clock.{Instant}
use ruprogress_mcp.OauthProxy.Upstream.{access_token, refresh_token}
use ruprogress_mcp.OauthProxy.Refresh.{RefreshOutcome}
use ruprogress_mcp.OauthProxy.Crypto.{Crypto, digest}
use ruprogress_mcp.OauthProxy.Codes.{RedeemOutcome}
use ruprogress_mcp.OauthProxy.CodeGrant.{
  CodeGrantReads, bad_request, conclude_grant, contain_replay, delete_minted, grant_code,
}
use ruprogress_mcp.Base.{
  Bytes, arith, bytes_eq, codes, inl, inr, none, some, ◌≡◌, ◌≢◌, ◌⊎◌, ==_refl,
}
use ruprogress_mcp.Std.Map
use ruprogress_mcp.OauthProxy.Codes
use ruprogress_mcp.OauthProxy.Tokens
use ruprogress_mcp.OauthProxy.Refresh
use ruprogress_mcp.OauthProxy.Flow.{error, Flow}

module _ (c : Crypto) where
  -- A code that does not redeem and is no replay is refused, and changes nothing but the codes.
  pub grant_code-refused :
      (f : Flow) (code redirect_uri client_id code_verifier : Bytes) (t : CodeGrantReads)
      (outcome : RedeemOutcome)
      → (Codes.redeem c f.proxy.codes code client_id redirect_uri code_verifier t.redeem_at
          t.replay_at).1
        ≡ outcome
      → (outcome ≡ RedeemOutcome.invalid) ⊎ (outcome ≡ RedeemOutcome.mismatch)
      → ((grant_code c f code redirect_uri client_id code_verifier t).1
          ≡ error bad_request (codes "invalid_grant"))
        × ((grant_code c f code redirect_uri client_id code_verifier t).0.proxy.tokens
            ≡ f.proxy.tokens)
        × ((grant_code c f code redirect_uri client_id code_verifier t).0.proxy.upstream_tokens
            ≡ f.proxy.upstream_tokens)
        × ((grant_code c f code redirect_uri client_id code_verifier t).0.proxy.refresh_tokens
            ≡ f.proxy.refresh_tokens)
        × ((grant_code c f code redirect_uri client_id code_verifier t).0.cache ≡ f.cache)
  unfolding grant_code conclude_grant
  grant_code-refused f code redirect_uri client_id code_verifier t outcome e (inl r) = ground arith
  grant_code-refused f code redirect_uri client_id code_verifier t outcome e (inr r) = ground arith

  -- Containing a replay: the access token of the first redemption no longer resolves, its refresh
  -- token is no longer redeemed, and the session is gone.
  pub contain_replay_lem :
      (f : Flow) (access_token refresh_token upstream_id : Bytes) (now later : Instant)
      (client_id id : Bytes)
      → Distinct f.proxy.tokens
      → let g =
          (contain_replay c f
            (digest c access_token)
            (some (digest c refresh_token))
            upstream_id).0 in
        ((Tokens.resolve c g.proxy.tokens access_token now).1 ≡ none)
        × ((Refresh.redeem c g.proxy.refresh_tokens refresh_token now later).1
            ≢ RefreshOutcome.ok client_id id)
        × (Map.get upstream_id g.proxy.upstream_tokens ≡ none)
  unfolding contain_replay
  contain_replay_lem f access_token refresh_token upstream_id now later client_id id d =
      let deleted = delete_minted f.proxy (digest c access_token) (some (digest c refresh_token)) in
      rw (drop_session-proxy c (record f { proxy = deleted }) upstream_id) (
        unfold delete_minted Tokens.delete_by_digest Refresh.delete_by_digest in
        (
          take_session-unresolved deleted upstream_id c access_token now
              (remove-Distinct (digest c access_token) f.proxy.tokens d)
              (resolve-delete_by_digest c f.proxy.tokens access_token now),
          redeem_absent c (take_session deleted upstream_id).0.refresh_tokens refresh_token now
              later client_id id
              (take_session-absent deleted upstream_id (digest c refresh_token) (
                ground (
                  arith,
                  get-remove (digest c refresh_token) (digest c refresh_token)
                      f.proxy.refresh_tokens.current,
                  ==_refl (digest c refresh_token),
                ))),
          take_session-gone deleted upstream_id,
        ))
