-- ===== src/OauthProxy/Codes/SingleUse.antt =====
-- Requests that interleave inside a redemption: between the locks of one, the parts of others run.
use ruprogress_mcp.Std.Map.{get-insert, get-remove}
use ruprogress_mcp.Std.Clock.{Instant, Reads}
use ruprogress_mcp.OauthProxy.Upstream.{UpstreamTokenSet}
use ruprogress_mcp.OauthProxy.Crypto.{Crypto, digest, mint_opaque_token}
use ruprogress_mcp.OauthProxy.Codes.{CodeStore, claim, look_up, mark_consumed, mint, ok}
use ruprogress_mcp.Base.{
  ==_refl, All, Bytes, List, Option, Option-cases, [], arith, bytes_beq_iff, bytes_eq, codes, inl,
  inr, none, some, ◌∷◌, ◌≡◌, ◌≢◌,
}
use ruprogress_mcp.Std.Map

-- One critical section of the store.
pub data Part : Type 0 where
  mints : Bytes → Bytes → Bytes → UpstreamTokenSet → Option Bytes → Instant → Reads → Part
  looks_up : Bytes → Instant → Part
  claims : Bytes → Part
  marks : Bytes → Bytes → Option Bytes → Bytes → Instant → Reads → Part

unfoldable pub apply : Crypto → CodeStore → Part → CodeStore
apply c s (mints client_id redirect_uri code_challenge upstream rng now r) =
    (mint c s client_id redirect_uri code_challenge upstream rng now r).0
apply c s (looks_up key now) = (look_up s key now).0
apply c s (claims key) = (claim s key).0
apply c s (marks code token_digest refresh_digest upstream_id now r) =
    mark_consumed c s code token_digest refresh_digest upstream_id now r

unfoldable pub run : Crypto → CodeStore → List Part → CodeStore
run c s [] = s
run c s (part ∷ parts) = run c (apply c s part) parts

-- No code with this digest is minted.
abbrev pub Spares : Crypto → Bytes → Part → Type 0
Spares c key (mints client_id redirect_uri code_challenge upstream rng now r) =
    (code : Bytes) → mint_opaque_token c (codes "rup_ac_") rng ≡ some code → digest c code ≢ key
Spares c key _ = Unit {0}

claim-gone :
    (s : CodeStore) (key other : Bytes)
    → Map.get key s.upstream ≡ none
    → Map.get key (claim s other).0.upstream ≡ none
unfolding claim
claim-gone s key other h = ground (arith, get-remove key other s.upstream)

mint-gone :
    (c : Crypto) (s : CodeStore) (key : Bytes) (client_id redirect_uri code_challenge : Bytes)
    (upstream : UpstreamTokenSet) (rng : Option Bytes) (now : Instant) (r : Reads)
    → Spares c key (mints client_id redirect_uri code_challenge upstream rng now r)
    → Map.get key s.upstream ≡ none
    → Map.get key (mint c s client_id redirect_uri code_challenge upstream rng now r).0.upstream
      ≡ none
unfolding mint
mint-gone c s key client_id redirect_uri code_challenge upstream rng now r h gone =
    elim (Option-cases (mint_opaque_token c (codes "rup_ac_") rng)) [
      | inl failed ↦ rw (failed, mint) gone
      | inr (code, minted) ↦ ground (
        arith,
        h code minted,
        bytes_beq_iff (digest c code) key,
        get-insert key (digest c code) upstream s.upstream,
      )
    ]

apply-gone :
    (c : Crypto) (s : CodeStore) (key : Bytes) (part : Part)
    → Spares c key part
    → Map.get key s.upstream ≡ none
    → Map.get key (apply c s part).upstream ≡ none
unfolding apply look_up mark_consumed
apply-gone c s key (mints client_id redirect_uri code_challenge upstream rng now r) h gone =
    mint-gone c s key client_id redirect_uri code_challenge upstream rng now r h gone
apply-gone c s key (looks_up other now) h gone = ground arith
apply-gone c s key (claims other) h gone = claim-gone s key other gone
apply-gone c s key (marks code token_digest refresh_digest upstream_id now r) h gone = gone

run-gone :
    (c : Crypto) (s : CodeStore) (key : Bytes) (parts : List Part)
    → All (Spares c key) parts
    → Map.get key s.upstream ≡ none
    → Map.get key (run c s parts).upstream ≡ none
unfolding run
run-gone c s key [] h gone = gone
run-gone c s key (part ∷ parts) h gone =
    run-gone c (apply c s part) key parts h.1 (apply-gone c s key part h.0 gone)

-- Of all claims of a code, in any interleaving of the parts of any requests, one at most yields
-- a token set, unless a minted code collides with its digest.
pub claim_exclusive :
    (c : Crypto) (s : CodeStore) (key : Bytes) (parts : List Part) (set : UpstreamTokenSet)
    → All (Spares c key) parts
    → (claim (run c (claim s key).0 parts) key).1 ≢ ok set
unfolding claim
claim_exclusive c s key parts set h won =
    let gone : Map.get key (claim s key).0.upstream ≡ none =
      ground (arith, get-remove key key s.upstream, ==_refl key) in
    ground (arith, run-gone c (claim s key).0 key parts h gone)
