-- ===== src/Tests/Handlers.antt =====
-- The handlers of /token and /revoke at concrete inputs.
use ruprogress_mcp.Std.Map
use ruprogress_mcp.OauthProxy.State
use ruprogress_mcp.OauthProxy.Flow
use ruprogress_mcp.Std.Text.{join, starts_with}
use ruprogress_mcp.OauthProxy.Revoke.Session.{revoke_token-access}
use ruprogress_mcp.OauthProxy.Revoke.{revoke_token}
use ruprogress_mcp.OauthProxy.Crypto.{digest}
use ruprogress_mcp.OauthProxy.CodeGrant.Outcome.{contain_replay_lem}
use ruprogress_mcp.OauthProxy.Capacity.{expires_after, sweep_and_check_capacity}
use ruprogress_mcp.Tests.{
  flow, proxy_state, reads, refresh_key, set_a, toy, access_key, held, owner,
}
use ruprogress_mcp.Std.Clock.{from_secs}
use ruprogress_mcp.RedmineClient.Model.{OauthToken}
use ruprogress_mcp.OauthProxy.Upstream.{access_token, granted_scopes, refresh_token}
use ruprogress_mcp.OauthProxy.RefreshGrant.Rotation.{finish-retires}
use ruprogress_mcp.OauthProxy.RefreshGrant.Vanished.{finish-kill_session}
use ruprogress_mcp.OauthProxy.CodeGrant.Session.{open_session-tokens}
use ruprogress_mcp.Base.{
  bytes_eq, Bytes, [], codes, none, some, ◌++◌, ◌∷◌, ◌≡◌, ◌≢◌, arith, refl, bytes_beq,
}
use ruprogress_mcp.OauthProxy.Tokens
use ruprogress_mcp.OauthProxy.Refresh
use ruprogress_mcp.OauthProxy.Upstream
use ruprogress_mcp.OauthProxy.Refresh.{reused, RefreshOutcome, in_flight, retire}
use ruprogress_mcp.OauthProxy.Flow.{
  tokens, MintReads, MintedPair, Flow, error, mint_token_pair, revocation, kill_session,
}
use ruprogress_mcp.OauthProxy.CodeGrant.{open_session, CodeGrantReads, contain_replay, issue}
use ruprogress_mcp.OauthProxy.RefreshGrant.{finish, Pending, FinishReads, BeginReads}

abbrev mint_reads : MintReads
mint_reads = record {
  access_rng = some (31 ∷ []);
  access_at = from_secs 20;
  access = reads 20;
  refresh_rng = some (32 ∷ []);
  refresh_at = from_secs 20;
  refresh = reads 20;
}

abbrev grant_reads : CodeGrantReads
grant_reads = record {
  redeem_at = from_secs 20;
  replay_at = from_secs 20;
  touch_at = from_secs 20;
  sweep_at = from_secs 20;
  ttl_at = from_secs 20;
  session_rng = some (255 ∷ []);
  deadline = reads 20;
  insert_at = from_secs 20;
  pair = mint_reads;
  consumed_at = from_secs 20;
  consumed = reads 20;
}

abbrev failing_reads : CodeGrantReads
failing_reads = record grant_reads { pair = record mint_reads { access_rng = none } }

abbrev finish_reads : FinishReads
finish_reads = record {
  expiry = reads 20;
  ttl_at = from_secs 20;
  replace_at = from_secs 20;
  deadline = reads 20;
  pair = mint_reads;
  retire_at = from_secs 20;
  retire = reads 20;
}

abbrev begin_reads : BeginReads
begin_reads = record {
  redeem_at = from_secs 20;
  retired_at = from_secs 20;
  touch_at = from_secs 20;
  secret_at = from_secs 20;
  scopes_at = from_secs 20;
}

abbrev pending : Pending
pending = record {
  token = refresh_key;
  client_id = 7 ∷ [];
  upstream_id = 5 ∷ [];
  granted_scopes = [];
}

abbrev redmine_answer : OauthToken
redmine_answer = record {
  access_token = 41 ∷ [];
  refresh_token = some (42 ∷ []);
  expires_in = some 7200;
  scope = none;
  token_type = none;
}

abbrev killed_meanwhile : Flow
killed_meanwhile =
    (finish toy (kill_session toy flow (5 ∷ [])) pending (some redmine_answer) finish_reads).0

abbrev minted : MintedPair
minted = record {
  access_token = codes "rup_at_" ++ 31 ∷ [];
  access_digest = codes "rup_at_" ++ 31 ∷ [];
  refresh_token = some (codes "rup_rt_" ++ 32 ∷ []);
  refresh_digest = some (codes "rup_rt_" ++ 32 ∷ []);
  ttl = from_secs 7180;
}

abbrev opened : Flow
opened = (open_session toy flow (1 ∷ []) (7 ∷ []) set_a grant_reads).0

granted :
    (open_session toy flow (1 ∷ []) (7 ∷ []) set_a grant_reads).1
    ≡ tokens minted (codes "view_issues")
unfolding open_session Upstream.insert sweep_and_check_capacity Map.retain
    Flow.sweep_expired_sessions State.sweep_expired_sessions Upstream.sweep_expired mint_token_pair
    Tokens.mint Refresh.mint join
granted = refl

refreshed :
    (finish toy flow pending (some redmine_answer) finish_reads).1
    ≡ tokens (record minted { ttl = from_secs 7200 }) []
unfolding finish Upstream.replace Upstream.session_deadline expires_after mint_token_pair
    Tokens.mint Refresh.mint sweep_and_check_capacity Map.retain join Map.get bytes_beq digest
refreshed = refl

open_session-tokens_example :
    (upstream_id : Bytes) × ((Tokens.resolve toy opened.proxy.tokens minted.access_token
        (from_secs 21)).1
      ≡ some (record { upstream_id = upstream_id; client_id = 7 ∷ [] }))
    × (Upstream.access_token opened.proxy.upstream_tokens upstream_id (from_secs 21)
        ≡ some (11 ∷ []))
open_session-tokens_example =
    open_session-tokens toy flow (1 ∷ []) (7 ∷ []) set_a grant_reads minted (codes "view_issues")
      (from_secs 21) granted (unfold expires_after in omega arith)
      (unfold Upstream.session_deadline expires_after in omega arith)

finish-retires_example :
    (Refresh.redeem toy
      (finish toy flow pending (some redmine_answer) finish_reads).0.proxy.refresh_tokens
      refresh_key
      (from_secs 21)
      (from_secs 21)).1
    ≡ reused (5 ∷ [])
unfolding sweep_and_check_capacity expires_after Map.retain
finish-retires_example =
    finish-retires toy flow pending finish_reads (some redmine_answer)
      (record minted { ttl = from_secs 7200 }) [] (from_secs 21) (from_secs 21) refreshed

finish-kill_session_example :
    ((finish toy (kill_session toy flow (5 ∷ [])) pending (some redmine_answer) finish_reads).1
      ≡ error 400 (codes "invalid_grant"))
    × (Map.get (5 ∷ []) killed_meanwhile.proxy.upstream_tokens ≡ none)
    × ((Tokens.resolve toy killed_meanwhile.proxy.tokens access_key (from_secs 21)).1 ≢ some owner)
    × ((Refresh.redeem toy killed_meanwhile.proxy.refresh_tokens refresh_key
          (from_secs 21)
          (from_secs 21)).1
        ≢ RefreshOutcome.ok (7 ∷ []) (5 ∷ []))
    × (killed_meanwhile.revoked
        ≡ (12 ∷ [], codes "refresh_token") ∷ (42 ∷ [], codes "refresh_token") ∷ [])
unfolding revocation
finish-kill_session_example =
    finish-kill_session toy flow pending finish_reads set_a (from_secs 8000) redmine_answer
      access_key refresh_key (from_secs 21) (from_secs 21) (7 ∷ [])
      (unfold Map.get bytes_beq in refl)

abbrev refused : Flow
refused = (finish toy flow pending none finish_reads).0

abbrev contained : Flow
contained =
    (contain_replay toy flow (digest toy access_key) (some (digest toy refresh_key)) (5 ∷ [])).0

contain_replay_lem_example :
    ((Tokens.resolve toy contained.proxy.tokens access_key (from_secs 1)).1 ≡ none)
    × ((Refresh.redeem toy contained.proxy.refresh_tokens refresh_key (from_secs 1) (from_secs 1)).1
        ≢ RefreshOutcome.ok (7 ∷ []) (5 ∷ []))
    × (Map.get (5 ∷ []) contained.proxy.upstream_tokens ≡ none)
contain_replay_lem_example =
    contain_replay_lem toy flow access_key refresh_key (5 ∷ []) (from_secs 1) (from_secs 1) (7 ∷ [])
      (5 ∷ []) ((unfold Map.get in refl), tt)

abbrev failed_issue : Flow
failed_issue = (issue toy flow (1 ∷ []) (7 ∷ []) set_a (5 ∷ []) failing_reads).0

abbrev reused_flow : Flow
reused_flow = record flow {
  proxy = record proxy_state {
    refresh_tokens = record {
      current = (refresh_key, (record held { state = in_flight }, from_secs 9000)) ∷ [];
      retired = [];
    };
  };
}

abbrev revoked_access : Flow
revoked_access = revoke_token toy flow access_key

revoke_token-access_example :
    ((Tokens.resolve toy revoked_access.proxy.tokens access_key (from_secs 1)).1 ≡ none)
    × (Map.get (5 ∷ []) revoked_access.proxy.upstream_tokens ≡ none)
    × ((Tokens.resolve toy revoked_access.proxy.tokens (4 ∷ []) (from_secs 1)).1 ≢ some owner)
    × (revoked_access.revoked ≡ (12 ∷ [], codes "refresh_token") ∷ [])
unfolding revocation
revoke_token-access_example =
    revoke_token-access toy flow access_key owner (from_secs 3600) set_a (from_secs 8000) (4 ∷ [])
      (from_secs 1) (7 ∷ []) (unfold starts_with in refl) ((unfold Map.get in refl), tt)
      (unfold Map.get digest bytes_beq in refl) (unfold Map.get bytes_beq in refl)

abbrev revoked_refresh : Flow
revoked_refresh = revoke_token toy flow refresh_key
