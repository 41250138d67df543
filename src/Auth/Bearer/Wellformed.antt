-- ===== src/Auth/Bearer/Wellformed.antt =====
-- Which requests carry a token.
use ruprogress_mcp.Base.{
  ok, Bytes, List, Option, Option-cases, [], all, any, arith, bytes_beq_iff, bytes_eq, codes, false,
  inl, inr, length, refl, some, true, ◌<◌, ◌↔◌, ◌∷◌, ◌≡◌, ◌≤◌,
}
use ruprogress_mcp.Std.Text.{split_once, eq_ignore_ascii_case, trim, trim-id, is_whitespace}
use ruprogress_mcp.Auth.Bearer.{
  max_token_len, is_visible, check_token, bearer_token, extract_bearer,
}

-- The rules for the `Authorization` header, as one statement: it is sent once, it is text, its
-- scheme is Bearer, and one space further there is a token of visible ASCII of at most
-- `max_token_len` bytes, up to the end.
pub record IsBearer (to_str : Bytes → Option Bytes) (headers : List Bytes) (token : Bytes)
    : Type 0 where
  pub value : Bytes
  pub text : Bytes
  pub scheme : Bytes
  pub once : headers ≡ value ∷ []
  pub readable : to_str value ≡ some text
  pub split : split_once 32 text ≡ some (scheme, token)
  pub is_bearer : eq_ignore_ascii_case scheme (codes "bearer") ≡ true
  pub nonempty : 0 < length token
  pub short : length token ≤ max_token_len
  pub visible : all is_visible token ≡ true

visible-blank : (token : Bytes) → all is_visible token ≡ true → any is_whitespace token ≡ false
unfolding is_visible is_whitespace
visible-blank [] h = refl
visible-blank (b ∷ bs) h = ground (arith, visible-blank bs)

check_token_iff :
    (token found : Bytes)
    → (check_token token ≡ ok found) ↔ (
        (token ≡ found)
        × (0 < length token)
        × (length token ≤ max_token_len)
        × (all is_visible token ≡ true))
unfolding check_token
check_token_iff [] found = ground (arith, bytes_beq_iff [] [], bytes_beq_iff (trim []) [])
check_token_iff (b ∷ bs) found = ground (
  arith,
  bytes_beq_iff (trim (b ∷ bs)) (b ∷ bs),
  bytes_beq_iff (b ∷ bs) [],
  trim-id (b ∷ bs),
  visible-blank (b ∷ bs),
)

extract_sound :
    (to_str : Bytes → Option Bytes) (headers : List Bytes) (token : Bytes)
    → extract_bearer to_str headers ≡ ok token
    → IsBearer to_str headers token
unfolding extract_bearer bearer_token
extract_sound to_str [] token h = absurd (ground (arith, h))
extract_sound to_str (value ∷ again ∷ more) token h = absurd (ground (arith, h))
extract_sound to_str (value ∷ []) token h = elim (Option-cases (to_str value)) [
  | inl unread ↦ absurd (ground (arith, h, unread))
  | inr (text, readable) ↦ elim (Option-cases (split_once 32 text)) [
    | inl whole ↦ absurd (ground (arith, h, readable, whole))
    | inr ((scheme, rest), split) ↦
        let checked = check_token_iff rest token in
        let good : (check_token rest ≡ ok token)
            × (eq_ignore_ascii_case scheme (codes "bearer") ≡ true) =
          ground (arith, h, readable, split) in
        let (same, nonempty, short, visible) = checked.0 good.0 in
        record {
          value = value;
          text = text;
          scheme = scheme;
          once = refl;
          readable = readable;
          split = ground (arith, split, same);
          is_bearer = good.1;
          nonempty = ground (arith, nonempty, same);
          short = ground (arith, short, same);
          visible = ground (arith, visible, same);
        }
  ]
]

-- A token is taken from the headers exactly if they fit the rules.
pub extract_bearer-IsBearer_iff :
    (to_str : Bytes → Option Bytes) (headers : List Bytes) (token : Bytes)
    → (extract_bearer to_str headers ≡ ok token) ↔ IsBearer to_str headers token
unfolding extract_bearer bearer_token
extract_bearer-IsBearer_iff to_str headers token = (
  extract_sound to_str headers token,
  λ b.
      let good = (check_token_iff token token).1 (refl, b.nonempty, b.short, b.visible) in
      rw (b.once) (ground (arith, good, b.readable, b.split, b.is_bearer)),
)
