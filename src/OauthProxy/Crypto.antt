-- ===== src/OauthProxy/Crypto.antt =====
-- The external primitives of oauth/proxy, and the opaque values minted from them (store.rs).
-- SHA-256 and base64url are other crates' and stand as parameters. What the system's random
-- generator answered is an argument of each operation that asks it: `none` is its failure.
use ruprogress_mcp.Base.{
  ℕ, ◌+◌, ◌-◌, ◌*◌, ◌/◌, ◌%◌, ◌<◌, ◌≡◌, refl, Option, some, [], ◌∷◌, ◌++◌, arith, ltb,
  if◌then◌else◌, length, All, Bytes, ◌>>=◌,
}

pub record Crypto : Type 0 where
  pub sha256 : Bytes → Bytes
  pub base64url : Bytes → Bytes

unfoldable pub digest : Crypto → Bytes → Bytes
digest c value = c.sha256 value

unfoldable pub mint_opaque_token : Crypto → Bytes → Option Bytes → Option Bytes
mint_opaque_token c prefix rng = do bytes ← rng; some (prefix ++ c.base64url bytes)

-- A digit of `{:x}`.
unfoldable pub hex_digit : ℕ → ℕ
hex_digit d = if ltb d 10 then b'0' + d else b'a' + (d - 10)

-- `write!(id, "{byte:02x}")` for each byte.
unfoldable pub hex_encode : Bytes → Bytes
unfolding hex_digit
hex_encode [] = []
hex_encode (byte ∷ bytes) = hex_digit (byte / 16) ∷ hex_digit (byte % 16) ∷ hex_encode bytes

unfoldable pub mint_client_id : Option Bytes → Option Bytes
unfolding hex_encode
mint_client_id rng = do bytes ← rng; some (hex_encode bytes)

hex_digit-injective : (a b : ℕ) → a < 16 → b < 16 → hex_digit a ≡ hex_digit b → a ≡ b
unfolding hex_digit
hex_digit-injective a b p q h = ground arith

-- Two hexadecimal digits for each byte.
pub length-hex_encode : (bytes : Bytes) → length (hex_encode bytes) ≡ 2 * length bytes
unfolding hex_encode
length-hex_encode [] = refl
length-hex_encode (byte ∷ bytes) = omega (arith, length-hex_encode bytes)

-- The encoding loses nothing of the random bytes.
pub hex_encode-injective :
    (xs ys : Bytes)
    → All (λ b. b < 256) xs
    → All (λ b. b < 256) ys
    → hex_encode xs ≡ hex_encode ys
    → xs ≡ ys
unfolding hex_encode
hex_encode-injective [] [] p q h = refl
hex_encode-injective [] (y ∷ ys) p q h = cc
hex_encode-injective (x ∷ xs) [] p q h = cc
hex_encode-injective (x ∷ xs) (y ∷ ys) p q h = ground (
  arith,
  hex_encode-injective xs ys p.1 q.1,
  hex_digit-injective (x / 16) (y / 16),
  hex_digit-injective (x % 16) (y % 16),
)
