-- ===== src/Attachments/Name/Safe.antt =====
-- attachments.rs: what the name of a stored file is like, whatever name Redmine gives.
use ruprogress_mcp.Attachments.Name.{
  chosen_part, is_normal, is_white, last_or, max_basename_len, path_parts, sanitize_basename,
  trim_left, trim_right, truncated_name,
}
use ruprogress_mcp.Std.Text.{split_words, add_word}
use ruprogress_mcp.Tools.Render.{is_control}
use ruprogress_mcp.Base.{
  ap, any, subst, sym, bytes_beq, false, ◌≢◌, ◌⊎◌, ◌∙◌, Bool, Bytes, List, [], all, arith, bytes_eq,
  codes, filter, if◌then◌else◌, is_empty, length, length-take, nat_eq, not, refl, take, true, suc,
  zero, ℕ, ◌&&◌, ◌==◌, ◌||◌, ◌∷◌, ◌≡◌, ◌≤◌, Bool-cases, inl, inr, false,
}

-- A character that a stored name may hold.
abbrev pub is_safe : ℕ → Bool
unfolding is_control
is_safe c = not (c == b'/') && not (is_control c)

module _ (p : ℕ → Bool) where
  all-trim_left : (cs : Bytes) → all p cs ≡ true → all p (trim_left cs) ≡ true
  unfolding trim_left
  all-trim_left [] h = refl
  all-trim_left (c ∷ cs) h = ground (arith, h, all-trim_left cs)

  all-trim_right : (cs : Bytes) → all p cs ≡ true → all p (trim_right cs) ≡ true
  unfolding trim_right
  all-trim_right [] h = refl
  all-trim_right (c ∷ cs) h = ground (arith, h, all-trim_right cs)

  all-take : (n : ℕ) (cs : Bytes) → all p cs ≡ true → all p (take n cs) ≡ true
  all-take zero cs h = refl
  all-take (suc n) [] h = refl
  all-take (suc n) (c ∷ cs) h = ground (arith, h, all-take n cs)

  all-last_or :
      (part : Bytes) (parts : List Bytes)
      → all p part ≡ true
      → all (λ q. all p q) parts ≡ true
      → all p (last_or part parts) ≡ true
  all-last_or part [] h hs = h
  all-last_or part (next ∷ parts) h hs =
      all-last_or next parts (ground (arith, hs)) (ground (arith, hs))

all-filter {ℓ} :
    {A : Type ℓ} (p q : A → Bool) (xs : List A) → all p xs ≡ true → all p (filter q xs) ≡ true
all-filter p q [] h = refl
all-filter p q (x ∷ xs) h = ground (arith, h, all-filter p q xs)

filtered_safe :
    (cs : Bytes)
    → all (λ c. not (c == b'/')) cs ≡ true
    → all is_safe (filter (λ c. not (is_control c)) cs) ≡ true
unfolding is_safe
filtered_safe [] h = refl
filtered_safe (c ∷ cs) h = ground (arith, h, filtered_safe cs)

abbrev no_slash : Bytes → Bool
no_slash part = all (λ c. not (c == b'/')) part

add_word-no_slash :
    (word : Bytes) (words : List Bytes)
    → no_slash word ≡ true
    → all no_slash words ≡ true
    → all no_slash (add_word word words) ≡ true
add_word-no_slash [] words h hs = hs
add_word-no_slash (b ∷ bs) words h hs = rw (h) hs

split_no_slash :
    (cs : Bytes)
    → (no_slash (split_words (λ c. c == b'/') cs).0 ≡ true)
      × (all no_slash (split_words (λ c. c == b'/') cs).1 ≡ true)
unfolding split_words
split_no_slash [] = (refl, refl)
split_no_slash (c ∷ cs) =
    let (word, words) = split_no_slash cs in
    let split = split_words (λ b. b == b'/') cs in
    elim (Bool-cases (c == b'/')) [
      | inl here ↦ rw (here) (refl, add_word-no_slash split.0 split.1 word words)
      | inr next ↦ rw (next) (rw (next) word, words)
    ]

path_parts-no_slash : (path : Bytes) → all no_slash (path_parts path) ≡ true
unfolding path_parts
path_parts-no_slash path =
    let (word, words) = split_no_slash path in
    let split = split_words (λ b. b == b'/') path in add_word-no_slash split.0 split.1 word words

truncated_safe : (name : Bytes) → all is_safe (truncated_name name) ≡ true
unfolding truncated_name chosen_part
truncated_safe name =
    let parts = filter is_normal (path_parts name) in
    let chosen =
      all-last_or (λ c. not (c == b'/')) [] parts refl
        (all-filter no_slash is_normal (path_parts name) (path_parts-no_slash name)) in
    let cleaned = filter (λ c. not (is_control c)) (last_or [] parts) in
    all-take is_safe max_basename_len (trim_right (trim_left cleaned)) (
      all-trim_right is_safe (trim_left cleaned)
        (all-trim_left is_safe cleaned (filtered_safe (last_or [] parts) chosen)))

truncated_length : (name : Bytes) → length (truncated_name name) ≤ max_basename_len
unfolding truncated_name
truncated_length name =
    let whole = trim_right (trim_left (filter (λ c. not (is_control c)) (chosen_part name))) in
    omega (arith, length-take max_basename_len whole)

-- A character that is dropped, anywhere or at the ends of a name.
abbrev pub is_dropped : ℕ → Bool
is_dropped c = is_control c || is_white c

abbrev is_kept : ℕ → Bool
is_kept c = not (is_dropped c)

both_kept : (a b : Bool) → a && b ≡ true → (a ≡ true) × (b ≡ true)
both_kept a b h = ground (arith, h)

and_true : (a b : Bool) → a ≡ true → b ≡ true → a && b ≡ true
and_true a b h hs = ground (arith, h, hs)

negated : (a b : Bool) → not a && not b ≡ not (a || b)
negated a b = ground arith

add_word-kept :
    (word : Bytes) (words : List Bytes)
    → all is_kept word ≡ true
    → all (λ q. all is_kept q) words ≡ true
    → all (λ q. all is_kept q) (add_word word words) ≡ true
add_word-kept [] words h hs = hs
add_word-kept (b ∷ bs) words h hs = and_true (all is_kept (b ∷ bs)) _ h hs

split_kept :
    (cs : Bytes)
    → all is_kept cs ≡ true
    → (all is_kept (split_words (λ c. c == b'/') cs).0 ≡ true)
      × (all (λ q. all is_kept q) (split_words (λ c. c == b'/') cs).1 ≡ true)
unfolding split_words
split_kept [] h = (refl, refl)
split_kept (c ∷ cs) h =
    let (first, rest) = both_kept (is_kept c) (all is_kept cs) h in
    let (word, words) = split_kept cs rest in
    let split = split_words (λ b. b == b'/') cs in
    elim (Bool-cases (c == b'/')) [
      | inl here ↦ rw (here) (refl, add_word-kept split.0 split.1 word words)
      | inr next ↦ rw (next) (and_true (is_kept c) _ first word, words)
    ]

path_parts-kept :
    (name : Bytes) → all is_kept name ≡ true → all (λ q. all is_kept q) (path_parts name) ≡ true
unfolding path_parts
path_parts-kept name h =
    let (word, words) = split_kept name h in
    let split = split_words (λ b. b == b'/') name in add_word-kept split.0 split.1 word words

chosen_part-kept : (name : Bytes) → all is_kept name ≡ true → all is_kept (chosen_part name) ≡ true
unfolding chosen_part
chosen_part-kept name h =
    all-last_or is_kept [] (filter is_normal (path_parts name)) refl
      (all-filter (λ q. all is_kept q) is_normal (path_parts name) (path_parts-kept name h))

kept_iff : (a b : Bool) → not (a || b) ≡ true → (a ≡ false) × (b ≡ false)
kept_iff a b h = ground (arith, h)

filter-kept : (cs : Bytes) → all is_kept cs ≡ true → filter (λ c. not (is_control c)) cs ≡ cs
filter-kept [] h = refl
filter-kept (c ∷ cs) h =
    let (first, rest) = both_kept (is_kept c) (all is_kept cs) h in
    rw ((kept_iff (is_control c) (is_white c) first).0) (ap (λ x. c ∷ x) (filter-kept cs rest))

trim_left-kept : (cs : Bytes) → all is_kept cs ≡ true → trim_left cs ≡ cs
unfolding trim_left
trim_left-kept [] h = refl
trim_left-kept (c ∷ cs) h =
    let (first, rest) = both_kept (is_kept c) (all is_kept cs) h in
    rw ((kept_iff (is_control c) (is_white c) first).1) refl

trim_right-kept : (cs : Bytes) → all is_kept cs ≡ true → trim_right cs ≡ cs
unfolding trim_right
trim_right-kept [] h = refl
trim_right-kept (c ∷ cs) h =
    let (first, rest) = both_kept (is_kept c) (all is_kept cs) h in
    rw ((kept_iff (is_control c) (is_white c) first).1, trim_right-kept cs rest)
      (never (is_empty cs) c cs)
  where
    never : (b : Bool) (c : ℕ) (cs : Bytes) → (if b && false then [] else c ∷ cs) ≡ c ∷ cs
    never true c cs = refl
    never false c cs = refl

filtered_normal : (parts : List Bytes) → all is_normal (filter is_normal parts) ≡ true
filtered_normal [] = refl
filtered_normal (part ∷ parts) = ground (arith, filtered_normal parts)

last_or-normal :
    (part : Bytes) (parts : List Bytes)
    → is_normal part ≡ true
    → all is_normal parts ≡ true
    → is_normal (last_or part parts) ≡ true
last_or-normal part [] h hs = h
last_or-normal part (next ∷ parts) h hs =
    last_or-normal next parts (ground (arith, hs)) (ground (arith, hs))

chosen_part-normal : (name : Bytes) → is_normal (chosen_part name) ≡ true
unfolding chosen_part is_normal bytes_beq
chosen_part-normal name =
    last_or-normal [] (filter is_normal (path_parts name)) refl (filtered_normal (path_parts name))

take-normal : (cs : Bytes) → is_normal cs ≡ true → is_normal (take max_basename_len cs) ≡ true
unfolding is_normal bytes_beq
take-normal [] h = h
take-normal (a ∷ []) h = h
take-normal (a ∷ b ∷ []) h = h
take-normal (a ∷ b ∷ d ∷ cs) h = ground arith

truncated_normal : (name : Bytes) → all is_kept name ≡ true → is_normal (truncated_name name) ≡ true
unfolding truncated_name
truncated_normal name h =
    let k = chosen_part-kept name h in
    let same =
      ap (λ x. trim_right (trim_left x)) (filter-kept (chosen_part name) k)
      ∙ ap trim_right (trim_left-kept (chosen_part name) k)
      ∙ trim_right-kept (chosen_part name) k in
    subst (λ x. is_normal (take max_basename_len x) ≡ true) (sym same)
      (take-normal (chosen_part name) (chosen_part-normal name))

normal_not_dots : (cs : Bytes) → is_normal cs ≡ true → (cs ≢ codes ".") × (cs ≢ codes "..")
unfolding is_normal bytes_beq
normal_not_dots cs h = (
  (λ e. no_normal (subst (λ x. is_normal x ≡ true) e h)),
  (λ e. no_normal (subst (λ x. is_normal x ≡ true) e h)),
)
  where
    no_normal : false ≡ true → ⊥
    no_normal e = ground (arith, e)

kept_or_dropped : (cs : Bytes) → all is_kept cs ≡ not (any is_dropped cs)
kept_or_dropped [] = refl
kept_or_dropped (c ∷ cs) = rw (kept_or_dropped cs) (negated (is_dropped c) (any is_dropped cs))

truncated_dots :
    (name : Bytes)
    → ((truncated_name name ≢ codes ".") × (truncated_name name ≢ codes ".."))
      ⊎ (any is_dropped name ≡ true)
truncated_dots name = elim (Bool-cases (any is_dropped name)) [
  | inl dropped ↦ inr dropped
  | inr none_dropped ↦ inl (
      normal_not_dots (truncated_name name)
        (truncated_normal name (kept_or_dropped name ∙ ap not none_dropped)))
]

-- Whatever name Redmine gives, the name under which the file is stored has no separator and no
-- control character, is not empty and has at most 200 characters, and it is neither "." nor "..",
-- unless the name given holds a control character or white space: those are removed only after
-- the parts that are no names.
pub sanitize_basename-all :
    (name : Bytes)
    → (all is_safe (sanitize_basename name) ≡ true)
      × (is_empty (sanitize_basename name) ≡ false)
      × (length (sanitize_basename name) ≤ max_basename_len)
      × (((sanitize_basename name ≢ codes ".") × (sanitize_basename name ≢ codes ".."))
          ⊎ (any is_dropped name ≡ true))
unfolding sanitize_basename is_control
sanitize_basename-all name = elim (Bool-cases (is_empty (truncated_name name))) [
  | inl nothing ↦
      rw (nothing)
        (refl, refl, omega arith, inl ((λ h. ground (arith, h)), (λ h. ground (arith, h))))
  | inr something ↦
      rw (something) (truncated_safe name, something, truncated_length name, truncated_dots name)
]
