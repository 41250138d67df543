-- ===== src/OauthProxy/Codes/Redemption.antt =====
-- What a redemption checks, and what it gives.
use ruprogress_mcp.Std.Map.{get-insert}
use ruprogress_mcp.Std.Clock.{Instant, Reads}
use ruprogress_mcp.OauthProxy.Upstream.{UpstreamTokenSet}
use ruprogress_mcp.OauthProxy.Pkce.{challenge_for, verify_iff}
use ruprogress_mcp.OauthProxy.Crypto.{Crypto, digest}
use ruprogress_mcp.OauthProxy.Codes.{
  CodeStore, PendingCode, claim, code_ttl, conclude, is_bound, look_up, mark_consumed, mint,
  mismatch, ok, redeem, replay, replayed,
}
use ruprogress_mcp.OauthProxy.Capacity.{expires_after, sweep_and_check_capacity}
use ruprogress_mcp.Base.{
  ==_refl, Bytes, Option, Option-cases, arith, bytes_beq_iff, bytes_eq, inl, inr, none, refl, some,
  true, ◌<◌, ◌↔◌, ◌≡◌,
}
use ruprogress_mcp.Std.Map

module _ (c : Crypto) where
  -- The checks of a redemption in the order of RFC 6749 and 7636, as one statement.
  pub record IsRedeemable (store : CodeStore) (code client_id redirect_uri code_verifier : Bytes)
      (now : Instant) (set : UpstreamTokenSet) : Type 0 where
    pub entry : PendingCode
    pub at : Instant
    pub pending : Map.get (digest c code) store.pending ≡ some (entry, at)
    pub unexpired : now < at
    pub client : entry.client_id ≡ client_id
    pub redirect : entry.redirect_uri ≡ redirect_uri
    pub challenge : c.base64url (c.sha256 code_verifier) ≡ entry.code_challenge
    pub held : Map.get (digest c code) store.upstream ≡ some set

  pub is_bound_iff :
      (entry : PendingCode) (client_id redirect_uri code_verifier : Bytes)
      → (is_bound c entry client_id redirect_uri code_verifier ≡ true) ↔ (
          (entry.client_id ≡ client_id)
          × (entry.redirect_uri ≡ redirect_uri)
          × (c.base64url (c.sha256 code_verifier) ≡ entry.code_challenge))
  unfolding is_bound
  is_bound_iff entry client_id redirect_uri code_verifier = ground (
    arith,
    bytes_beq_iff entry.client_id client_id,
    bytes_beq_iff entry.redirect_uri redirect_uri,
    verify_iff c entry.code_challenge code_verifier,
  )

  module _ (store : CodeStore) (code client_id redirect_uri code_verifier : Bytes)
      (now later : Instant) where
    redeem_sound :
        (set : UpstreamTokenSet)
        → (redeem c store code client_id redirect_uri code_verifier now later).1 ≡ ok set
        → IsRedeemable store code client_id redirect_uri code_verifier now set
    unfolding redeem look_up conclude replay claim
    redeem_sound set h = elim (Option-cases (Map.get (digest c code) store.pending)) [
      | inl missing ↦ absurd (ground (arith, h, missing))
      | inr (e, found) ↦
          let bound = is_bound_iff e.0 client_id redirect_uri code_verifier in
          record {
            entry = e.0;
            at = e.1;
            pending = found;
            unexpired = ground arith;
            client = ground (arith, bound);
            redirect = ground (arith, bound);
            challenge = ground (arith, bound);
            held = ground arith;
          }
    ]

    redeem_complete :
        (set : UpstreamTokenSet)
        → IsRedeemable store code client_id redirect_uri code_verifier now set
        → (redeem c store code client_id redirect_uri code_verifier now later).1 ≡ ok set
    unfolding redeem look_up conclude claim
    redeem_complete set r =
        let bound =
          (is_bound_iff r.entry client_id redirect_uri code_verifier).1
            (r.client, r.redirect, r.challenge) in
        ground (arith, bound, r.pending, r.held, r.unexpired)

    -- A redemption succeeds exactly if the code is pending and unexpired, client, redirect URI
    -- and PKCE verifier fit its bindings, and its token set is still there.
    pub redeem-IsRedeemable_iff :
        (set : UpstreamTokenSet)
        → ((redeem c store code client_id redirect_uri code_verifier now later).1 ≡ ok set)
          ↔ IsRedeemable store code client_id redirect_uri code_verifier now set
    redeem-IsRedeemable_iff set = (redeem_sound set, redeem_complete set)

    -- A mismatch leaves the store as it was, so that a later correct attempt can succeed.
    pub redeem_mismatch :
        (redeem c store code client_id redirect_uri code_verifier now later).1 ≡ mismatch
        → (redeem c store code client_id redirect_uri code_verifier now later).0 ≡ store
    unfolding redeem look_up conclude replay claim
    redeem_mismatch h = ground (arith, h)

  -- A minted code redeems for the set that it was minted with.
  pub redeem-mint :
      (store : CodeStore) (client_id redirect_uri code_verifier : Bytes)
      (upstream : UpstreamTokenSet) (rng : Option Bytes) (minted : Instant) (r : Reads)
      (code : Bytes) (now later : Instant)
      → (mint c store client_id redirect_uri
          (challenge_for c code_verifier)
          upstream
          rng
          minted
          r).1
        ≡ some code
      → now < expires_after r code_ttl
      → (redeem c
          (mint c store client_id redirect_uri
            (challenge_for c code_verifier)
            upstream
            rng
            minted
            r).0
          code
          client_id
          redirect_uri
          code_verifier
          now
          later).1
        ≡ ok upstream
  unfolding mint challenge_for
  redeem-mint store client_id redirect_uri code_verifier upstream rng minted r code now later h lt =
      let entry : PendingCode = record {
        client_id = client_id;
        redirect_uri = redirect_uri;
        code_challenge = challenge_for c code_verifier;
      } in
      redeem_complete _ code client_id redirect_uri code_verifier now later upstream (record {
        entry = entry;
        at = expires_after r code_ttl;
        pending = ground (
          arith,
          get-insert (digest c code) (digest c code) (entry, expires_after r code_ttl)
              (sweep_and_check_capacity minted store.pending (digest c code)).0,
          ==_refl (digest c code),
        );
        unexpired = lt;
        client = refl;
        redirect = refl;
        challenge = refl;
        held = ground (
          arith,
          get-insert (digest c code) (digest c code) upstream store.upstream,
          ==_refl (digest c code),
        );
      })

  -- A code that is presented again after its redemption was recorded answers with what that
  -- minted, as long as the record was stored and has not expired.
  pub redeem-mark_consumed :
      (store : CodeStore) (code client_id redirect_uri code_verifier : Bytes) (token_digest : Bytes)
      (refresh_digest : Option Bytes) (upstream_id : Bytes) (at : Instant) (r : Reads)
      (now later : Instant)
      → Map.get (digest c code) store.pending ≡ none
      → (sweep_and_check_capacity at store.consumed (digest c code)).1 ≡ true
      → later < expires_after r code_ttl
      → (redeem c
          (mark_consumed c store code token_digest refresh_digest upstream_id at r)
          code
          client_id
          redirect_uri
          code_verifier
          now
          later).1
        ≡ replayed token_digest refresh_digest upstream_id
  unfolding redeem look_up conclude replay mark_consumed
  redeem-mark_consumed store code client_id redirect_uri code_verifier token_digest refresh_digest
        upstream_id at r now later gone room lt =
      ground (
        arith,
        get-insert (digest c code) (digest c code)
            (
              record {
                minted_token_digest = token_digest;
                minted_refresh_digest = refresh_digest;
                upstream_id = upstream_id;
              },
              expires_after r code_ttl,
            )
            (sweep_and_check_capacity at store.consumed (digest c code)).0,
        ==_refl (digest c code),
      )
