-- ===== src/OauthProxy/Pkce/Bits.antt =====
-- When `|` and `^` of bytes are zero, from the digit recursion that they stand for.
use ruprogress_mcp.Base.{arith, nat_eq, suc, zero, ℕ, ◌%◌, ◌/◌, ◌↔◌, ◌≡◌, ◌≤◌}
use Prim.Native.Nat.{max, digits, differ, bit_or, bit_xor, bit_or-bitwise, bit_xor-bitwise}

or_digits-eq-zero : (n a b : ℕ) → a ≤ n → (digits (λ b. b) max n a b ≡ 0) ↔ ((a ≡ 0) × (b ≡ 0))
or_digits-eq-zero zero zero b h = ground arith
or_digits-eq-zero zero (suc a) b h = absurd (omega arith)
or_digits-eq-zero (suc n) zero b h = ground arith
or_digits-eq-zero (suc n) (suc a) b h =
    let ih = or_digits-eq-zero n (suc a / 2) (b / 2) (omega arith) in
    ((λ e. absurd (omega (arith, ih.0 (omega arith)))), (λ e. absurd (omega arith)))

pub bit_or-eq-zero_iff : (a b : ℕ) → (bit_or a b ≡ 0) ↔ ((a ≡ 0) × (b ≡ 0))
bit_or-eq-zero_iff a b = rw bit_or-bitwise (or_digits-eq-zero a a b (omega arith))

differ-eq-zero : (x y : ℕ) → (differ x y ≡ 0) ↔ (x ≡ y)
differ-eq-zero zero y = ground arith
differ-eq-zero (suc x) zero = ground arith
differ-eq-zero (suc x) (suc y) = ground (arith, differ-eq-zero x y)

xor_digits-eq-zero : (n a b : ℕ) → a ≤ n → (digits (λ b. b) differ n a b ≡ 0) ↔ (a ≡ b)
xor_digits-eq-zero zero zero b h = ground arith
xor_digits-eq-zero zero (suc a) b h = absurd (omega arith)
xor_digits-eq-zero (suc n) zero b h = ground arith
xor_digits-eq-zero (suc n) (suc a) b h =
    let ih = xor_digits-eq-zero n (suc a / 2) (b / 2) (omega arith) in
    let low = differ-eq-zero (suc a % 2) (b % 2) in
    (
      λ e. omega (arith, ih.0 (omega arith), low.0 (omega arith)),
      λ e. omega (arith, ih.1 (omega arith), low.1 (omega arith)),
    )

pub bit_xor-eq-zero_iff : (a b : ℕ) → (bit_xor a b ≡ 0) ↔ (a ≡ b)
bit_xor-eq-zero_iff a b = rw bit_xor-bitwise (xor_digits-eq-zero a a b (omega arith))
