-- ===== src/OauthProxy/Pkce.antt =====
-- pkce.rs: proof keys for the code exchange, S256 only.
mod Bits
use ruprogress_mcp.OauthProxy.Crypto.{Crypto}
use ruprogress_mcp.Base.{
  Bool, Bool-cases, Bytes, Option, [], arith, bytes_eq, false, if◌then◌else◌, inl, inr, length,
  nat_eq, some, true, ℕ, ◌==◌, ◌>>=◌, ◌↔◌, ◌∷◌, ◌≡◌,
}
use Bits.{bit_or-eq-zero_iff, bit_xor-eq-zero_iff}
use Prim.Native.Nat.{bit_or, bit_xor}

unfoldable pub generate_verifier : Crypto → Option Bytes → Option Bytes
generate_verifier c rng = do bytes ← rng; some (c.base64url bytes)

unfoldable pub challenge_for : Crypto → Bytes → Bytes
challenge_for c verifier = c.base64url (c.sha256 verifier)

-- The loop of `constant_time_eq` over the zipped bytes.
unfoldable pub diff_bytes : ℕ → Bytes → Bytes → ℕ
diff_bytes diff (x ∷ xs) (y ∷ ys) = diff_bytes (bit_or diff (bit_xor x y)) xs ys
diff_bytes diff _ _ = diff

unfoldable pub constant_time_eq : Bytes → Bytes → Bool
unfolding diff_bytes
constant_time_eq a b = if length a == length b then diff_bytes 0 a b == 0 else false

unfoldable pub verify : Crypto → Bytes → Bytes → Bool
unfolding challenge_for constant_time_eq
verify c code_challenge verifier = constant_time_eq (challenge_for c verifier) code_challenge

diff_bytes-eq-zero :
    (diff : ℕ) (a b : Bytes)
    → length a ≡ length b
    → (diff_bytes diff a b ≡ 0) ↔ ((diff ≡ 0) × (a ≡ b))
unfolding diff_bytes
diff_bytes-eq-zero diff [] [] h = ground arith
diff_bytes-eq-zero diff [] (y ∷ ys) h = absurd (omega arith)
diff_bytes-eq-zero diff (x ∷ xs) [] h = absurd (omega arith)
diff_bytes-eq-zero diff (x ∷ xs) (y ∷ ys) h = ground (
  arith,
  diff_bytes-eq-zero (bit_or diff (bit_xor x y)) xs ys (omega arith),
  bit_or-eq-zero_iff diff (bit_xor x y),
  bit_xor-eq-zero_iff x y,
)

-- The comparison without an early exit is equality.
pub constant_time_eq_iff : (a b : Bytes) → (constant_time_eq a b ≡ true) ↔ (a ≡ b)
unfolding constant_time_eq
constant_time_eq_iff a b = elim (Bool-cases (length a == length b)) [
  | inl same ↦ ground (arith, diff_bytes-eq-zero 0 a b)
  | inr other ↦ ground arith
]

-- A verifier is accepted exactly when its S256 challenge is the one that was stored.
pub verify_iff :
    (c : Crypto) (code_challenge verifier : Bytes)
    → (verify c code_challenge verifier ≡ true) ↔ (c.base64url (c.sha256 verifier) ≡ code_challenge)
unfolding verify
verify_iff c code_challenge verifier = constant_time_eq_iff _ code_challenge
