-- ===== src/Std/Unicode.antt =====
-- `str::split_whitespace`, of UTF-8: `char::is_whitespace` on the bytes of a character.
use ruprogress_mcp.Base.{
  zero, suc, Bool, Bytes, List, [], bytes_eq, if◌then◌else◌, leb, nat_eq, suc, ℕ, ◌&&◌, ◌-◌, ◌==◌,
  ◌||◌, ◌∷◌,
}
use ruprogress_mcp.Std.Text.{add_word}

unfoldable pub white1 : ℕ → Bool
white1 a = a == 32 || leb 9 a && leb a 13

-- U+0085 and U+00A0.
unfoldable pub white2 : ℕ → ℕ → Bool
white2 a b = a == 194 && (b == 133 || b == 160)

-- U+1680, U+2000 to U+200A, U+2028, U+2029, U+202F, U+205F and U+3000.
unfoldable pub white3 : ℕ → ℕ → ℕ → Bool
white3 a b d =
    a == 225 && b == 154 && d == 128
    || a == 226 && b == 128 && (leb 128 d && leb d 138 || d == 168 || d == 169 || d == 175)
    || a == 226 && b == 129 && d == 159
    || a == 227 && b == 128 && d == 128

-- The length of the white space character at the head, or 0.
unfoldable pub white_len : Bytes → ℕ
unfolding white1 white2 white3
white_len [] = 0
white_len (a ∷ []) = if white1 a then 1 else 0
white_len (a ∷ b ∷ []) = if white1 a then 1 else if white2 a b then 2 else 0
white_len (a ∷ b ∷ d ∷ _) =
    if white1 a then 1 else if white2 a b then 2 else if white3 a b d then 3 else 0

-- The first word and the words after it; `skip` bytes are left of a white space character.
unfoldable pub split_white : ℕ → Bytes → Bytes × List Bytes
unfolding white_len
split_white skip [] = ([], [])
split_white (suc skip) (b ∷ bs) = split_white skip bs
split_white zero (b ∷ bs) =
    let size = white_len (b ∷ bs) in
    let (word, words) = split_white (size - 1) bs in
    if size == 0 then (b ∷ word, words) else ([], add_word word words)

unfoldable pub split_whitespace : Bytes → List Bytes
unfolding split_white
split_whitespace text = let (word, words) = split_white 0 text in add_word word words
