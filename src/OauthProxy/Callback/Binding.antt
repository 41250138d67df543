-- ===== src/OauthProxy/Callback/Binding.antt =====
-- What binds a code to the round it was issued in.
use ruprogress_mcp.OauthProxy.Transactions.Use.{take_twice}
use ruprogress_mcp.Std.Clock.{Instant, Reads}
use ruprogress_mcp.RedmineClient.Model.{OauthToken}
use ruprogress_mcp.OauthProxy.State.{ProxyState}
use ruprogress_mcp.OauthProxy.Upstream.{UpstreamTokenSet}
use ruprogress_mcp.OauthProxy.Pkce.{challenge_for}
use ruprogress_mcp.OauthProxy.Crypto.{Crypto, digest, mint_opaque_token}
use ruprogress_mcp.OauthProxy.Capacity.{expires_after, sweep_and_check_capacity}
use ruprogress_mcp.Base.{
  Option, true, codes, ◌++◌, ◌∷◌, [], Bytes, arith, bytes_eq, some, ◌<◌, ◌≡◌, ◌≢◌, Option-cases,
  inl, inr,
}
use ruprogress_mcp.OauthProxy.Codes
use ruprogress_mcp.OauthProxy.Transactions.{Transaction}
use ruprogress_mcp.OauthProxy.Codes.{CodeStore, RedeemOutcome, code_ttl}
use ruprogress_mcp.OauthProxy.Codes.Redemption.{redeem-mint}
use ruprogress_mcp.OauthProxy.Authorize.{
  Site, CallbackReads, CallbackQuery, nonempty, goes_to, state_pair, trim_trailing_slash, issuer,
}
use ruprogress_mcp.OauthProxy.Callback.{
  finish_callback, upstream_set, callback, exchanges, hand_out,
}

minted_lem :
    (c : Crypto) (store : CodeStore) (transaction : Transaction) (set : UpstreamTokenSet)
    (bytes : Bytes) (rng : Option Bytes) (now : Instant) (r : Reads)
    → rng ≡ some bytes
    → (sweep_and_check_capacity now store.pending
        (digest c (codes "rup_ac_" ++ c.base64url bytes))).1
      ≡ true
    → (Codes.mint c store transaction.client_id transaction.redirect_uri transaction.code_challenge
        set rng now r).1
      ≡ some (codes "rup_ac_" ++ c.base64url bytes)
unfolding Codes.mint mint_opaque_token
minted_lem c store transaction set bytes rng now r h room = ground (arith, h, room)

-- The code that a callback hands out is in its reply, with the client's state, and redeems, until
-- its end, for Redmine's answer of that round, for the client and redirect URI that started it and
-- a verifier of the challenge they sent. The generator must not fail, and the store of codes must
-- have room.
pub redeem-finish_callback :
    (c : Crypto) (site : Site) (p : ProxyState) (transaction : Transaction) (token : OauthToken)
    (t : CallbackReads) (bytes code_verifier : Bytes) (now later : Instant)
    → t.code_rng ≡ some bytes
    → (sweep_and_check_capacity t.mint_at p.codes.pending
        (digest c (codes "rup_ac_" ++ c.base64url bytes))).1
      ≡ true
    → transaction.code_challenge ≡ challenge_for c code_verifier
    → now < expires_after t.end code_ttl
    → let code : Bytes = codes "rup_ac_" ++ c.base64url bytes in
      ((finish_callback c site p transaction (some token) t).1
        ≡ goes_to site
            (site.with_query transaction.redirect_uri (
              (codes "code", code)
              ∷ (state_pair transaction.client_state
                  ++ (codes "iss", trim_trailing_slash site.base_url) ∷ [])))
            (codes "stored redirect_uri is not a valid URL"))
      × ((Codes.redeem c
            (finish_callback c site p transaction (some token) t).0.codes
            code
            transaction.client_id
            transaction.redirect_uri
            code_verifier
            now
            later).1
          ≡ RedeemOutcome.ok (upstream_set c site transaction token t))
unfolding finish_callback hand_out issuer
redeem-finish_callback c site p transaction token t bytes code_verifier now later rng room challenge
      lt =
    let set = upstream_set c site transaction token t in
    let minted = minted_lem c p.codes transaction set bytes t.code_rng t.mint_at t.end rng room in
    (
      ground (arith, minted),
      ground (
        arith,
        minted,
        challenge,
        redeem-mint c p.codes transaction.client_id transaction.redirect_uri code_verifier set
            t.code_rng t.mint_at t.end (codes "rup_ac_" ++ c.base64url bytes) now later,
      ),
    )

-- A callback goes on to the exchange only for a state that a transaction answers to, before its
-- end, and uses that transaction up: a second callback with the state does not go on.
pub callback_once :
    (c : Crypto) (site : Site) (p : ProxyState) (query : CallbackQuery) (now later : Instant)
    (code again : Bytes) (transaction next : Transaction)
    → (callback c site p query now).1 ≡ exchanges code transaction
    → (callback c site (callback c site p query now).0 query later).1 ≢ exchanges again next
unfolding callback
callback_once c site p query now later code again transaction next h once =
    elim (Option-cases (nonempty query.state)) [
      | inl unnamed ↦ ground (arith, h, unnamed)
      | inr (raw_state, named) ↦
          ground (arith, once, named, take_twice c p.transactions raw_state now later)
    ]
