-- ===== src/RedmineClient/Paging/Walk.antt =====
-- client.rs: the walk over the pages ends, and how much it collects, whatever the server answers.
use ruprogress_mcp.RedmineClient.Errors.{Error}
use ruprogress_mcp.RedmineClient.Paging.{
  Ask, Envelope, Limits, Page, Progress, Step, advance, fetch_all, more, start, stop, walk,
}
use ruprogress_mcp.Base.{
  Bool-cases, Option, Result, Result-cases, arith, err, inl, inr, leb, length, length-append, ltb,
  ok, refl, some, subst, suc, zero, ℕ, ◌++◌, ◌+◌, ◌-◌, ◌==◌, ◌≡◌, ◌≤◌, ◌<◌, nat_eq, ◌⊎◌,
}

pub Step-cases :
    {A : Type 0} (t : Step A)
    → ((page : Page A) × (t ≡ stop page)) ⊎ ((next : Progress A) × (t ≡ more next))
Step-cases (stop page) = inl (page, refl)
Step-cases (more next) = inr (next, refl)

-- A walk that returns an error, or a page of a bounded number of items.
abbrev pub IsShort : {A : Type 0} → ℕ → Result (Page A) Error → Type 0
IsShort bound (err e) = Unit
IsShort bound (ok page) = length page.items ≤ bound

abbrev IsShortStep : {A : Type 0} → Limits → Step A → Type 0
IsShortStep limits (stop page) = length page.items ≤ limits.max_items - 1 + limits.page_size
IsShortStep limits (more next) = length next.collected ≤ limits.max_items - 1

advance-IsShort :
    {A : Type 0} (limits : Limits) (p : Progress A) (env : Envelope A)
    → length p.collected ≤ limits.max_items - 1
    → length env.env_items ≤ limits.page_size
    → IsShortStep limits (advance limits p env)
unfolding advance
advance-IsShort limits p env few small =
    let got = length env.env_items in
    let sum = length-append p.collected env.env_items in
    elim (Bool-cases (got == 0)) [
      | inl none_left ↦ rw (advance, none_left) (omega (arith, few))
      | inr some_left ↦
          rw (advance, some_left)
            (elim (Bool-cases (ltb 18446744073709551615 (env.env_offset + got))) [
              | inl over ↦ rw (over) (omega (arith, sum, few, small))
              | inr under ↦ rw (under) (elim (Bool-cases (leb (env.env_offset + got) p.at)) [
                | inl stuck ↦ rw (stuck) (omega (arith, sum, few, small))
                | inr moved ↦
                    rw (moved) (elim (Bool-cases (leb env.env_total_count (env.env_offset + got))) [
                      | inl whole ↦ rw (whole) (omega (arith, sum, few, small))
                      | inr part ↦
                          rw (part)
                            (elim (Bool-cases
                              (leb limits.max_items (length (p.collected ++ env.env_items)))) [
                                | inl full ↦ rw (full) (omega (arith, sum, few, small))
                                | inr room ↦ rw (room) (ground (arith, room))
                              ])
                    ])
              ])
            ])
    ]

module _ {W A : Type 0} (ask : Ask W A) (limits : Limits) where
  -- A walk that ended.
  abbrev IsEnded : Option (Result (Page A) Error × W) → Type 0
  IsEnded outcome =
      (r : Result (Page A) Error) × (after : W) × (outcome ≡ some (r, after))
      × IsShort (limits.max_items - 1 + limits.page_size) r

  module _
      (small : (n at : ℕ) (s : W) (env : Envelope A)
        → (ask n at s).0 ≡ ok env
        → length env.env_items ≤ n) where
    walk-IsEnded :
        (fuel pages_fetched : ℕ) (p : Progress A) (state : W)
        → pages_fetched ≤ limits.max_pages
        → limits.max_pages < fuel + pages_fetched
        → length p.collected ≤ limits.max_items - 1
        → IsEnded (walk ask limits fuel pages_fetched p state)
    unfolding walk
    walk-IsEnded zero pages_fetched p state within enough few =
        absurd (omega (arith, within, enough))
    walk-IsEnded (suc fuel) pages_fetched p state within enough few =
        elim (Bool-cases (leb limits.max_pages pages_fetched)) [
          | inl spent ↦ rw (walk, spent) (_, _, refl, omega (arith, few))
          | inr left ↦
              rw (walk, left)
                (elim (Result-cases (ask limits.page_size p.at state).0) [
                  | inr (e, bad) ↦ rw (bad) (_, _, refl, tt)
                  | inl (env, came) ↦
                      let short =
                        advance-IsShort limits p env few
                          (small limits.page_size p.at state env came) in
                      rw (came) (elim (Step-cases (advance limits p env)) [
                        | inl (page, same) ↦
                            rw (same) (_, _, refl, subst (IsShortStep limits) same short)
                        | inr (next, same) ↦ rw (same) (
                            walk-IsEnded fuel (suc pages_fetched) next _ (ground (arith, left))
                              (ground (arith, enough, left))
                              (subst (IsShortStep limits) same short))
                      ])
                ])
        ]

module _ {W A : Type 0} (ask : Ask W A) (limits : Limits) (asks : W → ℕ)
    (counts : (n at : ℕ) (s : W) → asks (ask n at s).1 ≡ suc (asks s)) where
  -- A walk that ended, within the pages that were left.
  abbrev IsSparing : ℕ → Option (Result (Page A) Error × W) → Type 0
  IsSparing bound outcome =
      (r : Result (Page A) Error) × (after : W) × (outcome ≡ some (r, after)) × (asks after ≤ bound)

  walk-IsSparing :
      (fuel pages_fetched : ℕ) (p : Progress A) (state : W)
      → pages_fetched ≤ limits.max_pages
      → limits.max_pages < fuel + pages_fetched
      → IsSparing
          (asks state + (limits.max_pages - pages_fetched))
          (walk ask limits fuel pages_fetched p state)
  unfolding walk
  walk-IsSparing zero pages_fetched p state within enough = absurd (omega (arith, within, enough))
  walk-IsSparing (suc fuel) pages_fetched p state within enough =
      let once = counts limits.page_size p.at state in
      elim (Bool-cases (leb limits.max_pages pages_fetched)) [
        | inl spent ↦ rw (walk, spent) (_, _, refl, omega arith)
        | inr left ↦
            let more_left : suc pages_fetched ≤ limits.max_pages = ground (arith, left) in
            rw (walk, left)
              (elim (Result-cases (ask limits.page_size p.at state).0) [
                | inr (e, bad) ↦ rw (bad) (_, _, refl, omega (arith, once, more_left))
                | inl (env, came) ↦ rw (came) (elim (Step-cases (advance limits p env)) [
                  | inl (page, same) ↦ rw (same) (_, _, refl, omega (arith, once, more_left))
                  | inr (next, same) ↦
                      let after = (ask limits.page_size p.at state).1 in
                      let (r, last, ended, few) =
                        walk-IsSparing fuel (suc pages_fetched) next after more_left
                          (omega (arith, enough)) in
                      rw (same) (r, last, ended, omega (arith, once, more_left, few))
                ])
              ])
      ]

-- When no answer holds more items than the page size that was asked for, a page that the walk
-- returns holds at most `max_items` less one (or none, for 0) and one page of items more.
pub fetch_all-IsShort :
    {W A : Type 0} (ask : Ask W A) (limits : Limits) (state : W)
    → ((n at : ℕ) (s : W) (env : Envelope A) → (ask n at s).0 ≡ ok env → length env.env_items ≤ n)
    → (r : Result (Page A) Error) × (after : W) × (fetch_all ask limits state ≡ some (r, after))
      × IsShort (limits.max_items - 1 + limits.page_size) r
unfolding fetch_all
fetch_all-IsShort ask limits state small =
    walk-IsEnded ask limits small (suc limits.max_pages) 0 (start limits) state (omega arith)
      (omega arith) (omega arith)

-- The walk over a collection's pages ends whatever the server answers, with a page or an error,
-- after at most `max_pages` requests, however requests are counted.
pub fetch_all-ends :
    {W A : Type 0} (ask : Ask W A) (limits : Limits) (state : W) (asks : W → ℕ)
    → ((n at : ℕ) (s : W) → asks (ask n at s).1 ≡ suc (asks s))
    → (r : Result (Page A) Error) × (after : W) × (fetch_all ask limits state ≡ some (r, after))
      × (asks after ≤ asks state + limits.max_pages)
unfolding fetch_all
fetch_all-ends ask limits state asks counts =
    let (r, after, ended, few) =
      walk-IsSparing ask limits asks counts (suc limits.max_pages) 0 (start limits) state
        (omega arith) (omega arith) in
    (r, after, ended, omega (arith, few))
