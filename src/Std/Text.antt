-- ===== src/Std/Text.antt =====
-- Text as bytes: the splits, trims and searches that the program makes.
use ruprogress_mcp.Base.{
  Bool, Bytes, List, Option, [], arith, bytes_eq, false, if◌then◌else◌, leb, nat_eq, none, refl,
  some, true, ℕ, ◌&&◌, ◌++◌, ◌+◌, ◌==◌, ◌>>=◌, ◌||◌, ◌↔◌, ◌∷◌, ◌≡◌, Option-cases, any, inl, inr,
  bytes_beq_iff, length-append, length, ap, ==_ne,
}

-- `u8::is_ascii_whitespace`.
unfoldable pub is_ascii_whitespace : ℕ → Bool
is_ascii_whitespace b = b == 32 || b == 9 || b == 10 || b == 12 || b == 13

-- Adds a word to those of a text, if it is not empty.
abbrev pub add_word : Bytes → List Bytes → List Bytes
add_word [] words = words
add_word (b ∷ bs) words = (b ∷ bs) ∷ words

-- The first word, up to a separator, and the words after it.
unfoldable pub split_words : (ℕ → Bool) → Bytes → Bytes × List Bytes
split_words sep [] = ([], [])
split_words sep (b ∷ bs) =
    let (word, words) = split_words sep bs in
    if sep b then ([], add_word word words) else (b ∷ word, words)

-- `str::split_ascii_whitespace`.
unfoldable pub split_ascii_whitespace : Bytes → List Bytes
unfolding split_words is_ascii_whitespace
split_ascii_whitespace text =
    let (word, words) = split_words is_ascii_whitespace text in add_word word words

unfoldable pub starts_with : Bytes → Bytes → Bool
starts_with text [] = true
starts_with [] (p ∷ ps) = false
starts_with (b ∷ bs) (p ∷ ps) = b == p && starts_with bs ps

-- `[..].join(sep)`.
unfoldable pub join : Bytes → List Bytes → Bytes
join sep [] = []
join sep (w ∷ []) = w
join sep (w ∷ w' ∷ ws) = w ++ sep ++ join sep (w' ∷ ws)

-- `str::strip_prefix`, `split_once` at a byte.
unfoldable pub strip_prefix : Bytes → Bytes → Option Bytes
strip_prefix text [] = some text
strip_prefix [] (p ∷ ps) = none
strip_prefix (b ∷ bs) (p ∷ ps) = if b == p then strip_prefix bs ps else none

unfoldable pub split_once : ℕ → Bytes → Option (Bytes × Bytes)
split_once sep [] = none
split_once sep (b ∷ bs) =
    if b == sep then some ([], bs) else (split_once sep bs >>= λ e. some (b ∷ e.0, e.1))

unfoldable pub to_ascii_lowercase : Bytes → Bytes
to_ascii_lowercase [] = []
to_ascii_lowercase (b ∷ bs) =
    (if leb b'A' b && leb b b'Z' then b + 32 else b) ∷ to_ascii_lowercase bs

unfoldable pub eq_ignore_ascii_case : Bytes → Bytes → Bool
unfolding to_ascii_lowercase
eq_ignore_ascii_case a b = to_ascii_lowercase a == to_ascii_lowercase b

-- A text with its prefix is found to start with it.
pub starts_with-append : (p s : Bytes) → starts_with (p ++ s) p ≡ true
unfolding starts_with
starts_with-append [] s = refl
starts_with-append (b ∷ p) s = ground (arith, starts_with-append p s)

pub strip_prefix_iff :
    (text p rest : Bytes) → (strip_prefix text p ≡ some rest) ↔ (text ≡ p ++ rest)
unfolding strip_prefix
strip_prefix_iff text [] rest = ground arith
strip_prefix_iff [] (p ∷ ps) rest = ground arith
strip_prefix_iff (b ∷ bs) (p ∷ ps) rest = ground (arith, strip_prefix_iff bs ps rest)

-- `str::trim`, of ASCII text.
unfoldable pub is_whitespace : ℕ → Bool
is_whitespace b = b == 32 || leb 9 b && leb b 13

unfoldable pub trim_start : Bytes → Bytes
unfolding is_whitespace
trim_start [] = []
trim_start (b ∷ bs) = if is_whitespace b then trim_start bs else b ∷ bs

unfoldable pub trim_end : Bytes → Bytes
unfolding is_whitespace
trim_end [] = []
trim_end (b ∷ bs) = let rest = trim_end bs in if rest == [] && is_whitespace b then [] else b ∷ rest

unfoldable pub trim : Bytes → Bytes
unfolding trim_start trim_end
trim text = trim_end (trim_start text)

trim_end-id : (text : Bytes) → any is_whitespace text ≡ false → trim_end text ≡ text
unfolding trim_end
trim_end-id [] h = refl
trim_end-id (b ∷ bs) h = ground (arith, trim_end-id bs)

-- A text without white space is what it trims to.
pub trim-id : (text : Bytes) → any is_whitespace text ≡ false → trim text ≡ text
unfolding trim trim_start
trim-id [] h = trim_end-id [] h
trim-id (b ∷ bs) h = ground (arith, trim_end-id (b ∷ bs) h)

-- Where a text is split, the separator stood.
pub split_once_lem :
    (sep : ℕ) (text before after : Bytes)
    → split_once sep text ≡ some (before, after)
    → text ≡ before ++ sep ∷ after
unfolding split_once
split_once_lem sep [] before after h = cc
split_once_lem sep (b ∷ bs) before after h = elim (Option-cases (split_once sep bs)) [
  | inl missing ↦ ground (arith, h, missing)
  | inr ((x, y), found) ↦ ground (arith, h, found, split_once_lem sep bs x y found)
]

-- `str::split_once` at a text, `str::strip_suffix`, `str::ends_with` a byte.
unfoldable pub split_once_at : Bytes → Bytes → Option (Bytes × Bytes)
unfolding strip_prefix
split_once_at sep [] = none
split_once_at sep (b ∷ bs) =
    let later = split_once_at sep bs in
    elim (strip_prefix (b ∷ bs) sep) [
      | some rest ↦ some ([], rest)
      | none ↦ later >>= λ e. some (b ∷ e.0, e.1)
    ]

unfoldable pub strip_suffix : Bytes → Bytes → Option Bytes
strip_suffix [] suffix = if suffix == [] then some [] else none
strip_suffix (b ∷ bs) suffix =
    let shorter = strip_suffix bs suffix in
    if (b ∷ bs) == suffix then some [] else (shorter >>= λ rest. some (b ∷ rest))

unfoldable pub ends_with : Bytes → ℕ → Bool
ends_with [] c = false
ends_with (b ∷ []) c = b == c
ends_with (b ∷ b' ∷ bs) c = ends_with (b' ∷ bs) c

-- `str::trim_start_matches` and `str::trim_end_matches` of a byte.
unfoldable pub trim_start_matches : ℕ → Bytes → Bytes
trim_start_matches c [] = []
trim_start_matches c (b ∷ bs) =
    let rest = trim_start_matches c bs in if b == c then rest else b ∷ bs

unfoldable pub trim_end_matches : ℕ → Bytes → Bytes
trim_end_matches c [] = []
trim_end_matches c (b ∷ bs) =
    let rest = trim_end_matches c bs in if rest == [] && b == c then [] else b ∷ rest

-- What is left when a suffix is taken off stands before it.
pub strip_suffix_lem :
    (text suffix rest : Bytes) → strip_suffix text suffix ≡ some rest → text ≡ rest ++ suffix
unfolding strip_suffix
strip_suffix_lem [] suffix rest h = ground (arith, bytes_beq_iff suffix [], bytes_beq_iff [] suffix)
strip_suffix_lem (b ∷ bs) suffix rest h = elim (Option-cases (strip_suffix bs suffix)) [
  | inl missing ↦ ground (arith, h, missing, bytes_beq_iff (b ∷ bs) suffix)
  | inr (shorter, found) ↦
      ground
        (arith, h, found, bytes_beq_iff (b ∷ bs) suffix, strip_suffix_lem bs suffix shorter found)
]

-- A text is split before the first place where the separator stands.
pub split_once_at_lem :
    (sep text before after : Bytes)
    → split_once_at sep text ≡ some (before, after)
    → text ≡ before ++ sep ++ after
unfolding split_once_at
split_once_at_lem sep [] before after h = cc
split_once_at_lem sep (b ∷ bs) before after h = elim (Option-cases (strip_prefix (b ∷ bs) sep)) [
  | inr (rest, found) ↦ ground (arith, h, found, strip_prefix_iff (b ∷ bs) sep rest)
  | inl missing ↦ elim (Option-cases (split_once_at sep bs)) [
    | inl nowhere ↦ ground (arith, h, missing, nowhere)
    | inr ((x, y), found) ↦ ground (arith, h, missing, found, split_once_at_lem sep bs x y found)
  ]
]

longer-ne : (b : ℕ) (rest suffix : Bytes) → ((b ∷ rest ++ suffix) == suffix) ≡ false
longer-ne b rest suffix =
    ==_ne (b ∷ rest ++ suffix) suffix
      (λ same. absurd (omega (arith, length-append rest suffix, ap (λ xs. length {A = ℕ} xs) same)))

-- A text with the suffix is found to have it.
pub strip_suffix-append : (rest suffix : Bytes) → strip_suffix (rest ++ suffix) suffix ≡ some rest
unfolding strip_suffix
strip_suffix-append [] [] = ground (arith, bytes_beq_iff [] [])
strip_suffix-append [] (s ∷ suffix) = ground (arith, bytes_beq_iff (s ∷ suffix) (s ∷ suffix))
strip_suffix-append (b ∷ rest) suffix =
    ground (arith, strip_suffix-append rest suffix, longer-ne b rest suffix)

pub ends_with-split :
    (text : Bytes) (c : ℕ) → ends_with text c ≡ true → (rest : Bytes) × (text ≡ rest ++ c ∷ [])
unfolding ends_with
ends_with-split [] c h = ground arith
ends_with-split (b ∷ []) c h = ([], ground arith)
ends_with-split (b ∷ b' ∷ bs) c h =
    let (rest, same) = ends_with-split (b' ∷ bs) c h in (b ∷ rest, ap (λ xs. b ∷ xs) same)

pub ends_with-append : (rest : Bytes) (c : ℕ) → ends_with (rest ++ c ∷ []) c ≡ true
unfolding ends_with
ends_with-append [] c = ground arith
ends_with-append (b ∷ []) c = ground arith
ends_with-append (b ∷ b' ∷ rest) c = ends_with-append (b' ∷ rest) c
