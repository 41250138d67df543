-- ===== src/OauthProxy/RefreshGrant.antt =====
-- endpoints.rs, `refresh_token_grant`. The handler awaits Redmine's answer, and other requests run
-- meanwhile: `begin` is what it does before, and `finish` after, on the state that it then finds.
pub mod Rotation
pub mod Vanished
pub mod Reached
use ruprogress_mcp.Std.Text.{join, split_ascii_whitespace}
use ruprogress_mcp.Std.Map.{HashMap}
use ruprogress_mcp.Std.Clock.{Duration, Instant, Reads, from_secs, saturating_duration_since}
use ruprogress_mcp.RedmineClient.Model.{OauthToken, scopes}
use ruprogress_mcp.OauthProxy.Upstream.{UpstreamStore, UpstreamTokenSet}
use ruprogress_mcp.OauthProxy.Refresh.{RefreshOutcome, RefreshStore}
use ruprogress_mcp.OauthProxy.Crypto.{Crypto, digest}
use ruprogress_mcp.OauthProxy.Capacity.{expires_after}
use ruprogress_mcp.Base.{
  ok, err, Bytes, List, Option, [], bytes_eq, codes, err, if◌then◌else◌, is_some, nat_eq, none, not,
  some, ℕ, ◌==◌,
}
use ruprogress_mcp.Std.Map
use ruprogress_mcp.OauthProxy.Registry
use ruprogress_mcp.OauthProxy.Refresh
use ruprogress_mcp.OauthProxy.Upstream
use ruprogress_mcp.OauthProxy.Flow.{
  Response, error, tokens, Flow, MintReads, drop_session, kill_session, mint_token_pair,
  revoke_upstream_and_purge,
}

-- What the handler holds across the await.
pub record Pending : Type 0 where
  pub token : Bytes
  pub client_id : Bytes
  pub upstream_id : Bytes
  pub granted_scopes : List Bytes

-- An answer, or the upstream refresh token to present and what is held meanwhile.
pub data Begun : Type 0 where
  answered : Response → Begun
  asks : Bytes → Pending → Begun

pub record BeginReads : Type 0 where
  pub redeem_at : Instant
  pub retired_at : Instant
  pub touch_at : Instant
  pub secret_at : Instant
  pub scopes_at : Instant

pub record FinishReads : Type 0 where
  pub expiry : Reads
  pub ttl_at : Instant
  pub replace_at : Instant
  pub deadline : Reads
  pub pair : MintReads
  pub retire_at : Instant
  pub retire : Reads

abbrev pub or_default : Option (List Bytes) → List Bytes
or_default none = []
or_default (some scopes) = scopes

-- The scopes of the answer, or those granted before.
unfoldable pub scopes_of : OauthToken → List Bytes → List Bytes
scopes_of token old = elim token.scope [ none ↦ old | some raw ↦ split_ascii_whitespace raw ]

abbrev pub secs_or_hour : Option ℕ → ℕ
secs_or_hour none = 3600
secs_or_hour (some n) = n

abbrev pub with_refresh : Flow → RefreshStore → Flow
with_refresh f store = record f { proxy = record f.proxy { refresh_tokens = store } }

abbrev pub with_upstream : Flow → UpstreamStore → Flow
with_upstream f store = record f { proxy = record f.proxy { upstream_tokens = store } }

module _ (c : Crypto) where
  -- The guard of the redemption is dropped when the handler returns.
  unfoldable pub finally : Bytes → Flow × Response → Flow × Response
  finally token (f, response) =
      (with_refresh f (Refresh.drop_guard f.proxy.refresh_tokens (digest c token)), response)

  abbrev pub discarded : Flow → Bytes → Flow
  discarded f token = with_refresh f (Refresh.discard c f.proxy.refresh_tokens token)

  -- After the token was redeemed for `client_id` and `upstream_id`.
  unfoldable pub begin_redeemed : Flow → Bytes → Bytes → Bytes → Bytes → BeginReads → Flow × Begun
  unfolding finally
  begin_redeemed f token requested_client_id client_id upstream_id t =
      if not (client_id == requested_client_id)
      then (let (f', response) = finally token (f, error 400 (codes "invalid_grant")) in
          (f', answered response))
      else let touched = record f {
        proxy = record f.proxy { registry = Registry.touch f.proxy.registry client_id t.touch_at };
      } in
        elim (Upstream.refresh_token touched.proxy.upstream_tokens upstream_id t.secret_at) [
          | none ↦
              (let (f', response) =
                  finally token (discarded touched token, error 400 (codes "invalid_grant")) in
                (f', answered response))
          | some secret ↦ (
            touched,
            asks secret (record {
              token = token;
              client_id = client_id;
              upstream_id = upstream_id;
              granted_scopes =
                  or_default
                    (Upstream.granted_scopes touched.proxy.upstream_tokens upstream_id t.scopes_at);
            }),
          )
        ]

  unfoldable pub begin_outcome : Flow → Bytes → Bytes → RefreshOutcome → BeginReads → Flow × Begun
  unfolding begin_redeemed
  begin_outcome f token requested_client_id RefreshOutcome.invalid t =
      (f, answered (error 400 (codes "invalid_grant")))
  begin_outcome f token requested_client_id (RefreshOutcome.reused upstream_id) t =
      (kill_session c f upstream_id, answered (error 400 (codes "invalid_grant")))
  begin_outcome f token requested_client_id (RefreshOutcome.ok client_id upstream_id) t =
      begin_redeemed f token requested_client_id client_id upstream_id t

  unfoldable pub begin_refresh : Flow → Bytes → Bytes → BeginReads → Flow × Begun
  unfolding begin_outcome
  begin_refresh f token requested_client_id t =
      let (store, outcome) =
        Refresh.redeem c f.proxy.refresh_tokens token t.redeem_at t.retired_at in
      begin_outcome (with_refresh f store) token requested_client_id outcome t

  unfoldable pub begin : Flow → HashMap Bytes Bytes → BeginReads → Flow × Begun
  unfolding begin_refresh
  begin f fields t = elim (Map.get (codes "refresh_token") fields) [
    | none ↦ (f, answered (error 400 (codes "invalid_request")))
    | some token ↦ elim (Map.get (codes "client_id") fields) [
      | none ↦ (f, answered (error 400 (codes "invalid_request")))
      | some requested_client_id ↦ begin_refresh f token requested_client_id t
    ]
  ]

  -- After the session's tokens were replaced by `set`.
  unfoldable pub rotate :
      Flow → Pending → UpstreamTokenSet → Duration → FinishReads → Flow × Response
  rotate f pending set ttl t =
      let (proxy, pair) =
        mint_token_pair c f.proxy pending.client_id pending.upstream_id ttl (is_some set.refresh)
          t.pair in
      let minting = record f { proxy = proxy } in
      elim pair [
        | none ↦ (minting, error 500 (codes "server_error"))
        | some minted ↦ (
          with_refresh minting (
              Refresh.retire c proxy.refresh_tokens pending.token pending.upstream_id t.retire_at
                t.retire),
          tokens minted (join (codes " ") set.granted_scopes),
        )
      ]

  -- The session is gone: what Redmine just issued is revoked.
  unfoldable pub vanish : Flow → Pending → UpstreamTokenSet → Flow × Response
  vanish f pending set = (
    revoke_upstream_and_purge c (discarded f pending.token) set,
    error 400 (codes "invalid_grant"),
  )

  unfoldable pub replace_session : Flow → Pending → UpstreamTokenSet → FinishReads → Flow × Response
  unfolding rotate vanish
  replace_session f pending set t =
      let ttl : Duration = saturating_duration_since set.expires_at t.ttl_at in
      let (store, replaced) =
        Upstream.replace f.proxy.upstream_tokens pending.upstream_id set t.replace_at t.deadline in
      elim replaced [
        | ok _ ↦ rotate (with_upstream f store) pending set ttl t
        | err lost ↦ vanish (with_upstream f store) pending lost
      ]

  -- `none`: Redmine refused the refresh, or could not be reached.
  unfoldable pub conclude_refresh :
      Flow → Pending → Option OauthToken → FinishReads → Flow × Response
  unfolding replace_session scopes_of
  conclude_refresh f pending none t = (
    drop_session c (discarded f pending.token) pending.upstream_id,
    error 400 (codes "invalid_grant"),
  )
  conclude_refresh f pending (some token) t =
      let set : UpstreamTokenSet = record {
        access = token.access_token;
        refresh = token.refresh_token;
        granted_scopes = scopes_of token pending.granted_scopes;
        expires_at = expires_after t.expiry (from_secs (secs_or_hour token.expires_in));
      } in
      replace_session f pending set t

  unfoldable pub finish : Flow → Pending → Option OauthToken → FinishReads → Flow × Response
  unfolding conclude_refresh finally
  finish f pending answer t = finally pending.token (conclude_refresh f pending answer t)
