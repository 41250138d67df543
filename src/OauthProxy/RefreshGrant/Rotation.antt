-- ===== src/OauthProxy/RefreshGrant/Rotation.antt =====
-- What a refresh does to its session, to its token and to a session that went away meanwhile.
use ruprogress_mcp.Std.Map.{HashMap, get-remove}
use ruprogress_mcp.OauthProxy.State.{ProxyState, take_session}
use ruprogress_mcp.Std.Clock.{Instant, from_secs, Duration, saturating_duration_since}
use ruprogress_mcp.RedmineClient.Model.{OauthToken}
use ruprogress_mcp.OauthProxy.Upstream.Deadline.{replace_lost}
use ruprogress_mcp.OauthProxy.Upstream.{UpstreamTokenSet, granted_scopes}
use ruprogress_mcp.OauthProxy.State.Gone.{take_session-gone, redeem_absent, take_session-absent}
use ruprogress_mcp.OauthProxy.Refresh.Rotation.{drop_guard-redeem, redeem-retire_lem}
use ruprogress_mcp.OauthProxy.Refresh.{
  RefreshOutcome, RefreshStore, drop_guard, retired_refresh_ttl, reused,
}
use ruprogress_mcp.OauthProxy.Flow.Proxy.{kill_session-proxy, drop_session-proxy}
use ruprogress_mcp.OauthProxy.Crypto.{Crypto, digest}
use ruprogress_mcp.OauthProxy.Capacity.{expires_after, sweep_and_check_capacity}
use ruprogress_mcp.Base.{
  Bytes, Option, [], arith, bytes_beq_iff, bytes_eq, codes, inl, none, some, ◌++◌, ◌∷◌, ◌≡◌, ◌≢◌,
  ==_refl, is_some, refl, Bool, Result-cases, inr, ap, ltb, if◌then◌else◌, ◌&&◌, ◌∙◌,
}
use ruprogress_mcp.Std.Map
use ruprogress_mcp.OauthProxy.Upstream
use ruprogress_mcp.OauthProxy.Refresh
use ruprogress_mcp.OauthProxy.Flow.{
  error, tokens, Flow, MintedPair, revocation, revoke_upstream_and_purge, mint_refresh,
  mint_token_pair, MintReads,
}
use ruprogress_mcp.OauthProxy.RefreshGrant.{
  begin_refresh, finish, BeginReads, FinishReads, Pending, answered, begin_outcome, begin_redeemed,
  conclude_refresh, finally, replace_session, rotate, scopes_of, secs_or_hour, vanish, with_refresh,
  discarded, with_upstream,
}

pub drop_guard_absent :
    (s : RefreshStore) (key : Bytes) → Map.get key s.current ≡ none → drop_guard s key ≡ s
unfolding drop_guard
drop_guard_absent s key gone = ground (arith, gone)

mint_token_pair-retired :
    (c : Crypto) (p : ProxyState) (client_id upstream_id : Bytes) (ttl : Duration) (wants : Bool)
    (m : MintReads)
    → (mint_token_pair c p client_id upstream_id ttl wants m).0.refresh_tokens.retired
      ≡ p.refresh_tokens.retired
unfolding mint_token_pair mint_refresh Refresh.mint
mint_token_pair-retired c p client_id upstream_id ttl wants m = ground arith

module _ (c : Crypto) (pending : Pending) (t : FinishReads) where
  -- A store of refresh tokens in which the presented token has just been retired.
  abbrev IsRetired : HashMap Bytes (Bytes × Instant) → RefreshStore → Type 0
  IsRetired retired after =
      (s : RefreshStore) × (s.retired ≡ retired)
      × (after ≡ Refresh.retire c s pending.token pending.upstream_id t.retire_at t.retire)

  rotate-IsRetired :
      (f : Flow) (set : UpstreamTokenSet) (ttl : Duration) (pair : MintedPair) (scope : Bytes)
      → (rotate c f pending set ttl t).1 ≡ tokens pair scope
      → IsRetired f.proxy.refresh_tokens.retired
          (rotate c f pending set ttl t).0.proxy.refresh_tokens
  unfolding rotate
  rotate-IsRetired f set ttl pair scope h =
      let made =
        mint_token_pair c f.proxy pending.client_id pending.upstream_id ttl (is_some set.refresh)
          t.pair in
      (
        made.0.refresh_tokens,
        mint_token_pair-retired c f.proxy pending.client_id pending.upstream_id ttl
            (is_some set.refresh) t.pair,
        ground (arith, h),
      )

  replace_session-IsRetired :
      (f : Flow) (set : UpstreamTokenSet) (pair : MintedPair) (scope : Bytes)
      → (replace_session c f pending set t).1 ≡ tokens pair scope
      → IsRetired f.proxy.refresh_tokens.retired
          (replace_session c f pending set t).0.proxy.refresh_tokens
  unfolding replace_session vanish
  replace_session-IsRetired f set pair scope h =
      let (store, replaced) =
        Upstream.replace f.proxy.upstream_tokens pending.upstream_id set t.replace_at t.deadline in
      let ttl = saturating_duration_since set.expires_at t.ttl_at in
      elim (Result-cases replaced) [
        | inl (done, kept) ↦
            let (s, same, retired) =
              rotate-IsRetired (with_upstream f store) set ttl pair scope
                (ground (arith, h, kept)) in
            (s, same, ground (arith, retired, kept))
        | inr (lost, gone) ↦ ground (arith, h, gone)
      ]

  conclude_refresh-IsRetired :
      (f : Flow) (answer : Option OauthToken) (pair : MintedPair) (scope : Bytes)
      → (conclude_refresh c f pending answer t).1 ≡ tokens pair scope
      → IsRetired f.proxy.refresh_tokens.retired
          (conclude_refresh c f pending answer t).0.proxy.refresh_tokens
  unfolding conclude_refresh
  conclude_refresh-IsRetired f none pair scope h = cc
  conclude_refresh-IsRetired f (some token) pair scope h =
      replace_session-IsRetired f _ pair scope h

  retire-absent :
      (s : RefreshStore)
      → Map.get
          (digest c pending.token)
          (Refresh.retire c s pending.token pending.upstream_id t.retire_at t.retire).current
        ≡ none
  unfolding Refresh.retire
  retire-absent s = ground (
    arith,
    get-remove (digest c pending.token) (digest c pending.token) s.current,
    ==_refl (digest c pending.token),
  )

module _ (c : Crypto) (f : Flow) (pending : Pending) (t : FinishReads) where
  -- A refresh that ends in new tokens retires the token that was presented, whatever other
  -- requests did meanwhile: presented again, it is not redeemed but a reuse of its session, as
  -- long as the retired set had room for it and it has not expired there, and unknown otherwise.
  pub finish-retires :
      (answer : Option OauthToken) (pair : MintedPair) (scope : Bytes) (now later : Instant)
      → (finish c f pending answer t).1 ≡ tokens pair scope
      → (Refresh.redeem c
          (finish c f pending answer t).0.proxy.refresh_tokens
          pending.token
          now
          later).1
        ≡ (if (sweep_and_check_capacity t.retire_at f.proxy.refresh_tokens.retired
                (digest c pending.token)).1
              && ltb later (expires_after t.retire retired_refresh_ttl)
            then reused pending.upstream_id
            else RefreshOutcome.invalid)
  unfolding finish finally
  finish-retires answer pair scope now later h =
      let key : Bytes = digest c pending.token in
      let (s, same, retired) =
        conclude_refresh-IsRetired c pending t f answer pair scope (ground (arith, h)) in
      let after = Refresh.retire c s pending.token pending.upstream_id t.retire_at t.retire in
      let dropped = drop_guard_absent after key (retire-absent c pending t s) in
      ap (λ x. (Refresh.redeem c x pending.token now later).1)
        (ap (λ x. drop_guard x key) retired ∙ dropped)
      ∙ redeem-retire_lem c s pending.token pending.upstream_id t.retire_at t.retire now later
      ∙ ap
          (λ x.
            if (sweep_and_check_capacity t.retire_at x key).1
              && ltb later (expires_after t.retire retired_refresh_ttl)
            then reused pending.upstream_id
            else RefreshOutcome.invalid)
          same

  -- A session that was removed while Redmine answered stays removed: no token is minted, the
  -- request fails, and what Redmine issued is revoked.
  pub finish_vanished :
      (token : OauthToken)
      → Map.get pending.upstream_id f.proxy.upstream_tokens ≡ none
      → let set : UpstreamTokenSet = record {
        access = token.access_token;
        refresh = token.refresh_token;
        granted_scopes = scopes_of token pending.granted_scopes;
        expires_at = expires_after t.expiry (from_secs (secs_or_hour token.expires_in));
      } in
        ((finish c f pending (some token) t).1 ≡ error 400 (codes "invalid_grant"))
        × ((finish c f pending (some token) t).0.proxy.upstream_tokens ≡ f.proxy.upstream_tokens)
        × ((finish c f pending (some token) t).0.proxy.tokens ≡ f.proxy.tokens)
        × ((finish c f pending (some token) t).0.revoked ≡ f.revoked ++ revocation set ∷ [])
  unfolding finish conclude_refresh replace_session vanish finally revoke_upstream_and_purge
  finish_vanished token gone = ground (
    arith,
    replace_lost f.proxy.upstream_tokens pending.upstream_id
        (record {
          access = token.access_token;
          refresh = token.refresh_token;
          granted_scopes = scopes_of token pending.granted_scopes;
          expires_at = expires_after t.expiry (from_secs (secs_or_hour token.expires_in));
        })
        t.replace_at t.deadline (inl gone),
  )

  -- A refresh that Redmine refuses ends the session: it is gone, and its token with it.
  pub finish_refused :
      (now later : Instant) (client_id id : Bytes)
      → ((finish c f pending none t).1 ≡ error 400 (codes "invalid_grant"))
        × (Map.get pending.upstream_id (finish c f pending none t).0.proxy.upstream_tokens ≡ none)
        × ((Refresh.redeem c
              (finish c f pending none t).0.proxy.refresh_tokens
              pending.token
              now
              later).1
            ≢ RefreshOutcome.ok client_id id)
  unfolding finish conclude_refresh finally Refresh.discard
  finish_refused now later client_id id =
      let key : Bytes = digest c pending.token in
      let discarding = discarded c f pending.token in
      let ended = drop_session-proxy c discarding pending.upstream_id in
      let removed : Map.get key discarding.proxy.refresh_tokens.current ≡ none =
        ground (arith, get-remove key key f.proxy.refresh_tokens.current, ==_refl key) in
      let absent = take_session-absent discarding.proxy pending.upstream_id key removed in
      let gone = take_session-gone discarding.proxy pending.upstream_id in
      (
        refl,
        ground (arith, ended, gone),
        redeem_absent c (finish c f pending none t).0.proxy.refresh_tokens pending.token now later
            client_id id
            (ground (
              arith,
              ended,
              absent,
              drop_guard_absent (take_session discarding.proxy pending.upstream_id).0.refresh_tokens
                  key absent,
            )),
      )

-- A request under another client's id is refused, and leaves every refresh token as it was.
pub begin_refresh-mismatch :
    (c : Crypto) (f : Flow) (token requested_client_id client_id upstream_id : Bytes)
    (t : BeginReads)
    → (Refresh.redeem c f.proxy.refresh_tokens token t.redeem_at t.retired_at).1
      ≡ RefreshOutcome.ok client_id upstream_id
    → client_id ≢ requested_client_id
    → ((begin_refresh c f token requested_client_id t).1
        ≡ answered (error 400 (codes "invalid_grant")))
      × ((begin_refresh c f token requested_client_id t).0 ≡ f)
unfolding begin_refresh begin_outcome begin_redeemed finally
begin_refresh-mismatch c f token requested_client_id client_id upstream_id t h differ = ground (
  arith,
  h,
  bytes_beq_iff client_id requested_client_id,
  drop_guard-redeem c f.proxy.refresh_tokens token t.redeem_at t.retired_at client_id upstream_id h,
)

-- A reused token kills its session: it is gone, and no refresh token of it is left.
pub begin_refresh-reused :
    (c : Crypto) (f : Flow) (token requested_client_id upstream_id : Bytes) (t : BeginReads)
    → (Refresh.redeem c f.proxy.refresh_tokens token t.redeem_at t.retired_at).1
      ≡ reused upstream_id
    → ((begin_refresh c f token requested_client_id t).1
        ≡ answered (error 400 (codes "invalid_grant")))
      × (Map.get upstream_id (begin_refresh c f token requested_client_id t).0.proxy.upstream_tokens
          ≡ none)
unfolding begin_refresh begin_outcome
begin_refresh-reused c f token requested_client_id upstream_id t h =
    let g =
      with_refresh f (Refresh.redeem c f.proxy.refresh_tokens token t.redeem_at t.retired_at).0 in
    ground (arith, h, kill_session-proxy c g upstream_id, take_session-gone g.proxy upstream_id)
