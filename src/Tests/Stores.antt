-- ===== src/Tests/Stores.antt =====
-- The stores at concrete inputs.
use ruprogress_mcp.Std.Map.{len, retain}
use ruprogress_mcp.OauthProxy.Crypto.{digest}
use ruprogress_mcp.OauthProxy.Codes.Retention.{mint_unbounded}
use ruprogress_mcp.Tests.{code_store, set_a, toy, reads, refresh_key, refresh_store, set_b}
use ruprogress_mcp.Std.Clock.{from_secs}
use ruprogress_mcp.Base.{
  arith, codes, ◌++◌, bytes_eq, bytes_beq, [], ◌↔◌, ◌∷◌, ◌≡◌, ◌≢◌, refl, some, true,
}
use ruprogress_mcp.Std.Map
use ruprogress_mcp.OauthProxy.Codes
use ruprogress_mcp.OauthProxy.Refresh
use ruprogress_mcp.OauthProxy.Pkce
use ruprogress_mcp.OauthProxy.Pkce.{verify_iff, challenge_for}
use ruprogress_mcp.OauthProxy.Codes.SingleUse
use ruprogress_mcp.OauthProxy.Refresh.Exclusion
use ruprogress_mcp.OauthProxy.Codes.SingleUse.{looks_up, claims, claim_exclusive}
use ruprogress_mcp.OauthProxy.Refresh.Exclusion.{redeems, redeem_exclusive}
use ruprogress_mcp.OauthProxy.Refresh.{RefreshOutcome, active, reused}
use ruprogress_mcp.OauthProxy.Codes.{RedeemOutcome, mismatch, replayed}
use ruprogress_mcp.OauthProxy.Codes.Redemption.{IsRedeemable, redeem-IsRedeemable_iff}

redeemed :
    (Refresh.redeem toy refresh_store refresh_key (from_secs 1) (from_secs 1)).1
    ≡ RefreshOutcome.ok (7 ∷ []) (5 ∷ [])
unfolding Refresh.redeem Refresh.redeem_live Map.get digest bytes_beq
redeemed = refl

claim_exclusive_example :
    (Codes.claim
      (SingleUse.run toy
        (Codes.claim code_store (1 ∷ [])).0
        (looks_up (1 ∷ []) (from_secs 2) ∷ claims (1 ∷ []) ∷ []))
      (1 ∷ [])).1
    ≢ RedeemOutcome.ok set_a
claim_exclusive_example =
    claim_exclusive toy code_store (1 ∷ []) (looks_up (1 ∷ []) (from_secs 2) ∷ claims (1 ∷ []) ∷ [])
      set_a (tt, (tt, tt))

redeem-IsRedeemable_iff_example :
    ((Codes.redeem toy code_store (1 ∷ []) (7 ∷ []) (8 ∷ []) (9 ∷ []) (from_secs 1) (from_secs 2)).1
      ≡ RedeemOutcome.ok set_a)
    ↔ IsRedeemable toy code_store (1 ∷ []) (7 ∷ []) (8 ∷ []) (9 ∷ []) (from_secs 1) set_a
redeem-IsRedeemable_iff_example =
    redeem-IsRedeemable_iff toy code_store (1 ∷ []) (7 ∷ []) (8 ∷ []) (9 ∷ []) (from_secs 1)
      (from_secs 2) set_a

mint_unbounded_example :
    ((Codes.mint toy code_store
        (7 ∷ [])
        (8 ∷ [])
        (9 ∷ [])
        set_b
        (some (4 ∷ []))
        (from_secs 61)
        (reads 61)).1
      ≡ some (codes "rup_ac_" ++ 4 ∷ []))
    × (len
          (Codes.mint toy code_store
            (7 ∷ [])
            (8 ∷ [])
            (9 ∷ [])
            set_b
            (some (4 ∷ []))
            (from_secs 61)
            (reads 61)).0.upstream
        ≡ 2)
mint_unbounded_example =
    mint_unbounded toy code_store (7 ∷ []) (8 ∷ []) (9 ∷ []) set_b (4 ∷ []) (from_secs 61)
      (reads 61) (omega arith, tt) (unfold bytes_beq Map.get digest in refl)

redeem_exclusive_example :
    (Refresh.redeem toy
      (Exclusion.run toy
        (Refresh.redeem toy refresh_store refresh_key (from_secs 1) (from_secs 1)).0
        (redeems refresh_key (from_secs 2) (from_secs 2) ∷ []))
      refresh_key
      (from_secs 3)
      (from_secs 3)).1
    ≢ RefreshOutcome.ok (7 ∷ []) (5 ∷ [])
redeem_exclusive_example =
    redeem_exclusive toy refresh_store refresh_key (from_secs 1) (from_secs 1) (7 ∷ []) (5 ∷ [])
      (redeems refresh_key (from_secs 2) (from_secs 2) ∷ []) (from_secs 3) (from_secs 3) (7 ∷ [])
      (5 ∷ []) ((unfold bytes_beq Map.get in refl), tt) redeemed (tt, tt)

verify_iff_example :
    (Pkce.verify toy (9 ∷ []) (9 ∷ []) ≡ true) ↔ (toy.base64url (toy.sha256 (9 ∷ [])) ≡ 9 ∷ [])
verify_iff_example = verify_iff toy (9 ∷ []) (9 ∷ [])
