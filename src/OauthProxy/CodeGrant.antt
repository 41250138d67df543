-- ===== src/OauthProxy/CodeGrant.antt =====
-- endpoints.rs, `authorization_code_grant`.
pub mod Outcome
pub mod Session
pub mod Reached
use ruprogress_mcp.Std.Text.{join}
use ruprogress_mcp.Std.Map.{HashMap}
use ruprogress_mcp.Std.Clock.{Duration, Instant, Reads, saturating_duration_since}
use ruprogress_mcp.OauthProxy.Upstream.{UpstreamTokenSet}
use ruprogress_mcp.OauthProxy.State.{ProxyState, take_session}
use ruprogress_mcp.OauthProxy.Crypto.{Crypto}
use ruprogress_mcp.OauthProxy.Codes.{RedeemOutcome}
use ruprogress_mcp.Base.{Bytes, Option, bytes_eq, codes, is_some, nat_eq, none, some, ℕ}
use ruprogress_mcp.Std.Map
use ruprogress_mcp.OauthProxy.Registry
use ruprogress_mcp.OauthProxy.Codes
use ruprogress_mcp.OauthProxy.Tokens
use ruprogress_mcp.OauthProxy.Upstream
use ruprogress_mcp.OauthProxy.Refresh
use ruprogress_mcp.OauthProxy.Flow.{
  sweep_expired_sessions, Response, error, tokens, Flow, MintReads, drop_session, mint_token_pair,
}

-- What a grant reads of the clock and the generator, in its order.
pub record CodeGrantReads : Type 0 where
  pub redeem_at : Instant
  pub replay_at : Instant
  pub touch_at : Instant
  pub sweep_at : Instant
  pub ttl_at : Instant
  pub session_rng : Option Bytes
  pub deadline : Reads
  pub insert_at : Instant
  pub pair : MintReads
  pub consumed_at : Instant
  pub consumed : Reads

abbrev pub bad_request : ℕ
bad_request = 400

abbrev pub internal_server_error : ℕ
internal_server_error = 500

-- The tokens that the first redemption minted are deleted.
unfoldable pub delete_minted : ProxyState → Bytes → Option Bytes → ProxyState
delete_minted p token_digest none = record p {
  tokens = Tokens.delete_by_digest p.tokens token_digest;
}
delete_minted p token_digest (some refresh_digest) = record p {
  tokens = Tokens.delete_by_digest p.tokens token_digest;
  refresh_tokens = Refresh.delete_by_digest p.refresh_tokens refresh_digest;
}

module _ (c : Crypto) where
  unfoldable pub contain_replay : Flow → Bytes → Option Bytes → Bytes → Flow × Response
  unfolding delete_minted
  contain_replay f token_digest refresh_digest upstream_id = (
    drop_session c (record f { proxy = delete_minted f.proxy token_digest refresh_digest })
        upstream_id,
    error bad_request (codes "invalid_grant"),
  )

  -- After the session was stored under `upstream_id`.
  unfoldable pub issue :
      Flow → Bytes → Bytes → UpstreamTokenSet → Bytes → CodeGrantReads → Flow × Response
  issue f code client_id upstream upstream_id t =
      let ttl : Duration = saturating_duration_since upstream.expires_at t.ttl_at in
      let (proxy, pair) =
        mint_token_pair c f.proxy client_id upstream_id ttl (is_some upstream.refresh) t.pair in
      elim pair [
        | none ↦ (
          record f { proxy = (take_session proxy upstream_id).0 },
          error internal_server_error (codes "server_error"),
        )
        | some minted ↦ (
          record f {
            proxy = record proxy {
              codes =
                  Codes.mark_consumed c proxy.codes code minted.access_digest minted.refresh_digest
                    upstream_id t.consumed_at t.consumed;
            };
          },
          tokens minted (join (codes " ") upstream.granted_scopes),
        )
      ]

  -- The session of a first, successful redemption is stored, after a sweep.
  unfoldable pub store_session :
      Flow → Bytes → UpstreamTokenSet → CodeGrantReads → Flow × Option Bytes
  store_session f client_id upstream t =
      let touched = record f {
        proxy = record f.proxy { registry = Registry.touch f.proxy.registry client_id t.touch_at };
      } in
      let swept = sweep_expired_sessions c touched t.sweep_at in
      let (store, stored) =
        Upstream.insert swept.proxy.upstream_tokens upstream t.session_rng t.deadline t.insert_at in
      (record swept { proxy = record swept.proxy { upstream_tokens = store } }, stored)

  unfoldable pub open_session :
      Flow → Bytes → Bytes → UpstreamTokenSet → CodeGrantReads → Flow × Response
  unfolding store_session issue
  open_session f code client_id upstream t =
      let (stored_flow, stored) = store_session f client_id upstream t in
      elim stored [
        | none ↦ (stored_flow, error internal_server_error (codes "server_error"))
        | some upstream_id ↦ issue stored_flow code client_id upstream upstream_id t
      ]

  unfoldable pub conclude_grant :
      Flow → Bytes → Bytes → RedeemOutcome → CodeGrantReads → Flow × Response
  unfolding contain_replay open_session
  conclude_grant f code client_id RedeemOutcome.invalid t =
      (f, error bad_request (codes "invalid_grant"))
  conclude_grant f code client_id RedeemOutcome.mismatch t =
      (f, error bad_request (codes "invalid_grant"))
  conclude_grant f code client_id (RedeemOutcome.replayed token_digest refresh_digest id) t =
      contain_replay f token_digest refresh_digest id
  conclude_grant f code client_id (RedeemOutcome.ok upstream) t =
      open_session f code client_id upstream t

  unfoldable pub grant_code :
      Flow → Bytes → Bytes → Bytes → Bytes → CodeGrantReads → Flow × Response
  unfolding conclude_grant
  grant_code f code redirect_uri client_id code_verifier t =
      let (store, outcome) =
        Codes.redeem c f.proxy.codes code client_id redirect_uri code_verifier t.redeem_at
          t.replay_at in
      conclude_grant (record f { proxy = record f.proxy { codes = store } }) code client_id outcome
        t

  -- All four fields have to be there.
  unfoldable pub authorization_code_grant :
      Flow → HashMap Bytes Bytes → CodeGrantReads → Flow × Response
  unfolding grant_code
  authorization_code_grant f fields t = elim (Map.get (codes "code") fields) [
    | none ↦ (f, error bad_request (codes "invalid_request"))
    | some code ↦ elim (Map.get (codes "redirect_uri") fields) [
      | none ↦ (f, error bad_request (codes "invalid_request"))
      | some redirect_uri ↦ elim (Map.get (codes "client_id") fields) [
        | none ↦ (f, error bad_request (codes "invalid_request"))
        | some client_id ↦ elim (Map.get (codes "code_verifier") fields) [
          | none ↦ (f, error bad_request (codes "invalid_request"))
          | some code_verifier ↦ grant_code f code redirect_uri client_id code_verifier t
        ]
      ]
    ]
  ]
