-- ===== src/OauthProxy/Codes/Retention.antt =====
-- What becomes of a code that nobody redeems.
use ruprogress_mcp.Std.Map.{HashMap, get-remove, len, len-insert, retain}
use ruprogress_mcp.Std.Clock.{Instant, Reads}
use ruprogress_mcp.OauthProxy.Upstream.{UpstreamTokenSet}
use ruprogress_mcp.OauthProxy.Crypto.{Crypto, digest, mint_opaque_token}
use ruprogress_mcp.OauthProxy.Codes.{
  CodeStore, PendingCode, conclude, look_up, mint, redeem, replay,
}
use ruprogress_mcp.OauthProxy.Capacity.{sweep_and_check_capacity}
use ruprogress_mcp.Base.{
  ==_refl, All, Bytes, [], arith, bytes_eq, codes, ltb, none, refl, some, suc, ◌++◌, ◌∷◌, ◌≡◌, ◌≤◌,
}
use ruprogress_mcp.Std.Map

sweep_expired :
    (now : Instant) (m : HashMap Bytes (PendingCode × Instant))
    → All (λ e. e.1.1 ≤ now) m
    → retain (λ _ e. ltb now e.1) m ≡ []
unfolding retain
sweep_expired now [] h = refl
sweep_expired now (e ∷ m) h = ground (arith, sweep_expired now m h.1)

module _ (c : Crypto) where
  -- An expired code answers as unknown or replayed and its binding goes, but the token set that
  -- was stored with it stays.
  pub redeem_expired :
      (store : CodeStore) (code client_id redirect_uri code_verifier : Bytes) (entry : PendingCode)
      (at now later : Instant)
      → Map.get (digest c code) store.pending ≡ some (entry, at)
      → at ≤ now
      → ((redeem c store code client_id redirect_uri code_verifier now later).1
          ≡ replay store (digest c code) later)
        × (Map.get
              (digest c code)
              (redeem c store code client_id redirect_uri code_verifier now later).0.pending
            ≡ none)
        × ((redeem c store code client_id redirect_uri code_verifier now later).0.upstream
            ≡ store.upstream)
  unfolding redeem look_up conclude replay
  redeem_expired store code client_id redirect_uri code_verifier entry at now later found le =
      ground
        (arith, get-remove (digest c code) (digest c code) store.pending, ==_refl (digest c code))

  -- A mint is bounded by the pending codes alone: once those have expired it succeeds however
  -- many token sets are held, and holds one more.
  pub mint_unbounded :
      (store : CodeStore) (client_id redirect_uri code_challenge : Bytes)
      (upstream : UpstreamTokenSet) (bytes : Bytes) (now : Instant) (r : Reads)
      → All (λ e. e.1.1 ≤ now) store.pending
      → Map.get (digest c (codes "rup_ac_" ++ c.base64url bytes)) store.upstream ≡ none
      → ((mint c store client_id redirect_uri code_challenge upstream (some bytes) now r).1
          ≡ some (codes "rup_ac_" ++ c.base64url bytes))
        × (len
              (mint c store client_id redirect_uri code_challenge upstream
                (some bytes)
                now
                r).0.upstream
            ≡ suc (len store.upstream))
  unfolding mint sweep_and_check_capacity mint_opaque_token
  mint_unbounded store client_id redirect_uri code_challenge upstream bytes now r expired fresh =
      let key : Bytes = digest c (codes "rup_ac_" ++ c.base64url bytes) in
      let swept = sweep_expired now store.pending expired in
      (ground (arith, swept), ground (arith, swept, len-insert key upstream store.upstream, fresh))
