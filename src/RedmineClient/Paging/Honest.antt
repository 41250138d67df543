-- ===== src/RedmineClient/Paging/Honest.antt =====
-- client.rs: what the walk returns from a server that answers with slices of one list.
use ruprogress_mcp.RedmineClient.Paging.Walk.{Step-cases}
use ruprogress_mcp.RedmineClient.Paging.{
  Ask, Envelope, Limits, Page, Progress, Step, advance, fetch_all, finish, more, start, stop, walk,
  u64_max,
}
use ruprogress_mcp.Base.{
  Bool-cases, List, [], arith, inl, inr, leb, length, length-take, ltb, min, ok, refl, some, subst,
  suc, sym, take, zero, ℕ, ◌++◌, ◌+◌, ◌-◌, ◌*◌, ◌==◌, ◌≡◌, ◌≤◌, ◌<◌, ◌⊎◌, ◌∷◌, nat_eq, false, ap,
  ap₂, ◌∙◌,
}

abbrev pub drop : {A : Type 0} → ℕ → List A → List A
drop zero xs = xs
drop (suc n) [] = []
drop (suc n) (x ∷ xs) = drop n xs

pub length-drop : {A : Type 0} (n : ℕ) (xs : List A) → length (drop n xs) ≡ length xs - n
length-drop zero xs = omega arith
length-drop (suc n) [] = omega arith
length-drop (suc n) (x ∷ xs) = omega (arith, length-drop n xs)

take_nil : {A : Type 0} (n : ℕ) → take {A = A} n [] ≡ []
take_nil zero = refl
take_nil (suc n) = refl

take-suc_add :
    {A : Type 0} (a b : ℕ) (x : A) (xs : List A) → take (suc a + b) (x ∷ xs) ≡ x ∷ take (a + b) xs
take-suc_add a b x xs = ap (λ n. take n (x ∷ xs)) {x = suc a + b} {y = suc (a + b)} (omega arith)

take_add : {A : Type 0} (a b : ℕ) (xs : List A) → take a xs ++ take b (drop a xs) ≡ take (a + b) xs
take_add zero b xs = ap (λ n. take n xs) {x = b} {y = 0 + b} (omega arith)
take_add (suc a) b [] = take_nil b ∙ sym (take_nil (suc a + b))
take_add (suc a) b (x ∷ xs) = ap (λ ys. x ∷ ys) (take_add a b xs) ∙ sym (take-suc_add a b x xs)

take-length-take : {A : Type 0} (n : ℕ) (xs : List A) → take (length (take n xs)) xs ≡ take n xs
take-length-take zero xs = refl
take-length-take (suc n) [] = refl
take-length-take (suc n) (x ∷ xs) = ap (λ ys. x ∷ ys) (take-length-take n xs)

suc-mul : (n m : ℕ) → suc n * m ≡ n * m + m
suc-mul n m = omega arith

-- The answer of a server that holds a list and caps the size of a page.
abbrev pub slice : {A : Type 0} → List A → ℕ → ℕ → ℕ → Envelope A
slice xs cap n at = record {
  env_items = take (min n cap) (drop at xs);
  env_total_count = length xs;
  env_offset = at;
  env_limit = min n cap;
}

-- A page that says what it holds of a list: the first items of it, all of them unless a limit was
-- met.
pub record IsPrefix {A : Type 0} (xs : List A) (limits : Limits) (m : ℕ) (page : Page A)
    : Type 0 where
  pub has_prefix : page.items ≡ take page.offset xs
  pub within : page.offset ≤ length xs
  pub has_total : page.total_count ≡ length xs
  pub says_truncated : page.truncated ≡ ltb page.offset (length xs)
  pub reason :
      (page.offset ≡ length xs)
      ⊎ ((limits.max_items ≤ page.offset) ⊎ (page.offset ≡ limits.max_pages * m))

module _ {A : Type 0} (xs : List A) (limits : Limits) (cap : ℕ) where
  abbrev page_length : ℕ
  page_length = min limits.page_size cap

  -- The walk's variables after a number of full pages.
  record IsOnTrack (pages : ℕ) (p : Progress A) : Type 0 where
    holds : p.collected ≡ take p.at xs
    full : p.at ≡ pages * page_length
    going : ((pages ≡ 0) × (p.at ≤ length xs)) ⊎ ((p.total ≡ length xs) × (p.at < length xs))

  abbrev IsFine : ℕ → Step A → Type 0
  IsFine pages (stop page) = IsPrefix xs limits page_length page
  IsFine pages (more next) = IsOnTrack (suc pages) next

  module _ (some_size : 0 < page_length) (small : length xs ≤ u64_max) where
    advance-IsFine :
        (pages : ℕ) (p : Progress A)
        → IsOnTrack pages p
        → IsFine pages (advance limits p (slice xs cap limits.page_size p.at))
    unfolding advance
    advance-IsFine pages p t =
        let got : ℕ = length (take page_length (drop p.at xs)) in
        let size =
          length-take page_length (drop p.at xs) ∙ ap (min page_length) (length-drop p.at xs) in
        let sum = suc-mul pages page_length in
        let low : p.at ≤ length xs = elim t.going [
          | inl first ↦ first.1
          | inr later ↦ omega (arith, later.1)
        ] in
        let whole : p.collected ++ take page_length (drop p.at xs) ≡ take (p.at + got) xs =
          ap₂ (λ ys zs. ys ++ zs) t.holds (sym (take-length-take page_length (drop p.at xs)))
          ∙ take_add p.at got xs in
        let all : length (p.collected ++ take page_length (drop p.at xs)) ≡ p.at + got =
          ap length whole ∙ length-take (p.at + got) xs ∙ omega (arith, size, low) in
        elim (Bool-cases (got == 0)) [
          | inl ended ↦
              rw (advance, ended)
                (record {
                  has_prefix = t.holds;
                  within = low;
                  has_total = refl;
                  says_truncated = refl;
                  reason = inl (ground (arith, ended, size, low, some_size));
                })
          | inr some_left ↦
              let fits : ltb 18446744073709551615 (p.at + got) ≡ false =
                ground (arith, size, low, small) in
              let moved : leb (p.at + got) p.at ≡ false = ground (arith, some_left) in
              rw (advance, some_left, fits, moved)
                (elim (Bool-cases (leb (length xs) (p.at + got))) [
                  | inl last ↦ rw (last) (record {
                    has_prefix = whole;
                    within = omega (arith, size, low);
                    has_total = refl;
                    says_truncated = ground (arith, last);
                    reason = inl (ground (arith, last, size, low));
                  })
                  | inr part ↦
                      rw (part)
                        (elim (Bool-cases (
                          leb limits.max_items
                            (length (p.collected ++ take page_length (drop p.at xs))))) [
                              | inl full ↦ rw (full) (record {
                                has_prefix = whole;
                                within = omega (arith, size, low);
                                has_total = refl;
                                says_truncated = ground (arith, part);
                                reason = inr (inl (ground (arith, full, all)));
                              })
                              | inr room ↦ rw (room) (record {
                                holds = whole;
                                full = ground (arith, sum, t.full, size, part);
                                going = inr (refl, ground (arith, part));
                              })
                            ])
                ])
        ]

    spent-IsPrefix :
        (pages : ℕ) (p : Progress A)
        → pages ≡ limits.max_pages
        → 0 < limits.max_pages
        → IsOnTrack pages p
        → IsPrefix xs limits page_length (finish p (ltb p.at p.total))
    spent-IsPrefix pages p spent some_pages t = elim t.going [
      | inl first ↦ absurd (omega (arith, first.0, spent, some_pages))
      | inr later ↦ record {
        has_prefix = t.holds;
        within = omega (arith, later.1);
        has_total = later.0;
        says_truncated = ap (ltb p.at) later.0;
        reason = inr (inr (t.full ∙ ap (λ n. n * page_length) spent));
      }
    ]

    module _ {W : Type 0} (ask : Ask W A)
        (honest : (n at : ℕ) (s : W) → (ask n at s).0 ≡ ok (slice xs cap n at)) where
      walk-IsPrefix :
          (fuel pages : ℕ) (p : Progress A) (state : W)
          → 0 < limits.max_pages
          → pages ≤ limits.max_pages
          → limits.max_pages < fuel + pages
          → IsOnTrack pages p
          → (page : Page A) × (after : W) × (walk ask limits fuel pages p state
              ≡ some (ok page, after))
            × IsPrefix xs limits page_length page
      unfolding walk
      walk-IsPrefix zero pages p state some_pages within enough t =
          absurd (omega (arith, within, enough))
      walk-IsPrefix (suc fuel) pages p state some_pages within enough t =
          elim (Bool-cases (leb limits.max_pages pages)) [
            | inl spent ↦
                rw (walk, spent)
                  (_, _, refl, spent-IsPrefix pages p (ground (arith, spent, within)) some_pages t)
            | inr left ↦
                rw (walk, left, honest limits.page_size p.at state)
                  (elim (Step-cases (advance limits p (slice xs cap limits.page_size p.at))) [
                    | inl (page, same) ↦
                        rw (same) (_, _, refl, subst (IsFine pages) same (advance-IsFine pages p t))
                    | inr (next, same) ↦ rw (same) (
                        walk-IsPrefix fuel (suc pages) next _ some_pages (ground (arith, left))
                          (ground (arith, enough))
                          (subst (IsFine pages) same (advance-IsFine pages p t)))
                  ])
          ]

-- From a server that answers with slices of one list, with a page size and a count of pages above
-- 0 and fewer than 2^64 items, the walk returns the first items of the list, in order and each
-- once; it says that the page is truncated exactly when items are missing; and items are missing
-- only when `max_items` was met or every one of `max_pages` pages was full.
pub fetch_all-IsPrefix :
    {W A : Type 0} (xs : List A) (limits : Limits) (cap : ℕ) (ask : Ask W A) (state : W)
    → 0 < min limits.page_size cap
    → 0 < limits.max_pages
    → length xs ≤ u64_max
    → ((n at : ℕ) (s : W) → (ask n at s).0 ≡ ok (slice xs cap n at))
    → (page : Page A) × (after : W) × (fetch_all ask limits state ≡ some (ok page, after))
      × IsPrefix xs limits (min limits.page_size cap) page
unfolding fetch_all
fetch_all-IsPrefix xs limits cap ask state some_size some_pages small honest =
    walk-IsPrefix xs limits cap some_size small ask honest (suc limits.max_pages) 0 (start limits)
      state some_pages (omega arith) (omega arith)
      (record { holds = refl; full = omega arith; going = inl (refl, omega arith) })
