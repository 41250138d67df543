-- ===== src/Tools/Render.antt =====
-- render.rs: the boundary around text that Redmine's users wrote. A text is its characters here.
pub mod Stripped
use ruprogress_mcp.Std.Text.{strip_prefix}
use mathlib.Core.List.{append-nil}
use ruprogress_mcp.Base.{
  Bool, Bool-cases, subst, sym, ◌⊎◌, Bytes, Option, Option-cases, [], codes, filter, if◌then◌else◌,
  inl, inr, leb, length, nat_eq, none, not, refl, some, suc, zero, ℕ, ◌&&◌, ◌++◌, ◌-◌, ◌==◌, ◌||◌,
  ◌∷◌, ◌≡◌,
}

-- `str::replace` of a text by nothing; `skip` characters are left of an occurrence.
unfoldable pub remove_all : Bytes → ℕ → Bytes → Bytes
unfolding strip_prefix
remove_all pattern_text skip [] = []
remove_all pattern_text (suc skip) (c ∷ cs) = remove_all pattern_text skip cs
remove_all pattern_text zero (c ∷ cs) =
    let found = remove_all pattern_text (length pattern_text - 1) cs in
    let kept = remove_all pattern_text zero cs in
    elim (strip_prefix (c ∷ cs) pattern_text) [ some rest ↦ found | none ↦ c ∷ kept ]

-- `char::is_control`.
unfoldable pub is_control : ℕ → Bool
is_control c = leb c 31 || leb 127 c && leb c 159

unfoldable pub is_allowed : ℕ → Bool
unfolding is_control
is_allowed c = not (is_control c) || (c == 10 || c == 9)

unfoldable pub sanitize : Bytes → Bytes
unfolding remove_all is_allowed
sanitize content =
    filter is_allowed
      (remove_all (codes "<<</untrusted:") 0 (remove_all (codes "<<<untrusted:") 0 content))

unfoldable pub closing : Bytes → Bytes
closing nonce = codes "<<</untrusted:" ++ nonce ++ codes ">>>"

-- `Boundary::wrap`, with the boundary's nonce.
unfoldable pub wrap : Bytes → Bytes → Bytes → Bytes
unfolding sanitize closing
wrap nonce kind content =
    codes "<<<untrusted:"
    ++ kind
    ++ codes ":"
    ++ nonce
    ++ codes ">>>"
    ++ sanitize content
    ++ closing nonce

-- The characters of the first text stand in the second in the same order.
abbrev pub IsPart : Bytes → Bytes → Type 0
IsPart [] cs = Unit
IsPart (d ∷ ds) [] = ⊥
IsPart (d ∷ ds) (c ∷ cs) = ((d ≡ c) × IsPart ds cs) ⊎ IsPart (d ∷ ds) cs

skip_one : (ds : Bytes) (c : ℕ) (cs : Bytes) → IsPart ds cs → IsPart ds (c ∷ cs)
skip_one [] c cs h = tt
skip_one (d ∷ ds) c cs h = inr h

-- A part of a text with one more character at its head.
one_more :
    (ds : Bytes) (c : ℕ) (cs xs : Bytes)
    → ((es : Bytes) → IsPart es cs → IsPart es xs)
    → IsPart ds (c ∷ cs)
    → IsPart ds (c ∷ xs)
one_more [] c cs xs wider h = tt
one_more (d ∷ ds) c cs xs wider (inl (same, h)) = inl (same, wider ds h)
one_more (d ∷ ds) c cs xs wider (inr h) = inr (wider (d ∷ ds) h)

IsPart-filter : (p : ℕ → Bool) (xs ds : Bytes) → IsPart ds (filter p xs) → IsPart ds xs
IsPart-filter p [] ds h = h
IsPart-filter p (x ∷ xs) ds h = elim (Bool-cases (p x)) [
  | inl kept ↦
      one_more ds x (filter p xs) xs (IsPart-filter p xs)
        (subst (λ b. IsPart ds (if b then x ∷ filter p xs else filter p xs)) kept h)
  | inr dropped ↦ skip_one ds x xs (
      IsPart-filter p xs ds
        (subst (λ b. IsPart ds (if b then x ∷ filter p xs else filter p xs)) dropped h))
]

-- What `remove_all` makes of a text, by whether the pattern starts it.
abbrev after_match : Bytes → ℕ → Bytes → Option Bytes → Bytes
unfolding remove_all
after_match pattern_text x xs (some rest) = remove_all pattern_text (length pattern_text - 1) xs
after_match pattern_text x xs none = x ∷ remove_all pattern_text 0 xs

IsPart-remove_all :
    (pattern_text : Bytes) (skip : ℕ) (xs ds : Bytes)
    → IsPart ds (remove_all pattern_text skip xs)
    → IsPart ds xs
unfolding remove_all after_match
IsPart-remove_all pattern_text skip [] ds h = h
IsPart-remove_all pattern_text (suc skip) (x ∷ xs) ds h =
    skip_one ds x xs (IsPart-remove_all pattern_text skip xs ds h)
IsPart-remove_all pattern_text zero (x ∷ xs) ds h =
    elim (Option-cases (strip_prefix (x ∷ xs) pattern_text)) [
      | inl missing ↦
          one_more ds x (remove_all pattern_text 0 xs) xs (IsPart-remove_all pattern_text 0 xs)
            (subst (λ o. IsPart ds (after_match pattern_text x xs o)) missing h)
      | inr (rest, found) ↦ skip_one ds x xs (
          IsPart-remove_all pattern_text (length pattern_text - 1) xs ds
            (subst (λ o. IsPart ds (after_match pattern_text x xs o)) found h))
    ]

IsPart-append : (ds ys : Bytes) → IsPart ds (ds ++ ys)
IsPart-append [] ys = tt
IsPart-append (d ∷ ds) ys = inl (refl, IsPart-append ds ys)

IsPart-after : (ds xs cs : Bytes) → IsPart ds cs → IsPart ds (xs ++ cs)
IsPart-after ds [] cs h = h
IsPart-after ds (x ∷ xs) cs h = skip_one ds x (xs ++ cs) (IsPart-after ds xs cs h)

IsPart-before : (ds cs ys : Bytes) → IsPart ds cs → IsPart ds (cs ++ ys)
IsPart-before [] cs ys h = tt
IsPart-before (d ∷ ds) [] ys h = elim h [ ]
IsPart-before (d ∷ ds) (c ∷ cs) ys (inl (same, h)) = inl (same, IsPart-before ds cs ys h)
IsPart-before (d ∷ ds) (c ∷ cs) ys (inr h) = inr (IsPart-before (d ∷ ds) cs ys h)

-- A text that does not hold the characters of the nonce in their order cannot close the boundary:
-- where the closing delimiter with the nonce stands in what is written for it, the nonce's
-- characters stand in the text.
pub sanitize-closing :
    (nonce content before after : Bytes)
    → sanitize content ≡ before ++ closing nonce ++ after
    → IsPart nonce content
unfolding sanitize closing
sanitize-closing nonce content before after forged =
    IsPart-remove_all (codes "<<<untrusted:") 0 content nonce (
      IsPart-remove_all (codes "<<</untrusted:") 0 _ nonce (
        IsPart-filter is_allowed _ nonce (
          subst (IsPart nonce) (sym forged) (
            IsPart-before nonce (before ++ closing nonce) after (
              IsPart-after nonce before (closing nonce) (
                IsPart-before nonce (codes "<<</untrusted:" ++ nonce) (codes ">>>") (
                  IsPart-after nonce (codes "<<</untrusted:") nonce
                    (subst (IsPart nonce) (append-nil nonce) (IsPart-append nonce [])))))))))
