-- ===== src/RedmineClient/Paging.antt =====
-- crates/redmine-client: page.rs, and the walk over a collection's pages in client.rs.
pub mod Honest
pub mod Walk
use ruprogress_mcp.RedmineClient.Errors.{Error}
use ruprogress_mcp.Base.{
  Bool, List, Option, Result, [], err, false, if◌then◌else◌, leb, length, ltb, nat_eq, none, ok,
  some, suc, true, zero, ℕ, ◌++◌, ◌+◌, ◌-◌, ◌==◌, ◌^◌,
}

abbrev pub u64_max : ℕ
u64_max = 2 ^ 64 - 1

pub record Limits : Type 0 where
  pub page_size : ℕ
  pub max_pages : ℕ
  pub max_items : ℕ
  pub max_response_bytes : ℕ

pub record Page (A : Type 0) : Type 0 where
  pub items : List A
  pub total_count : ℕ
  pub offset : ℕ
  pub limit : ℕ
  pub truncated : Bool

-- `Collection`: one answer of a paginated endpoint.
pub record Envelope (A : Type 0) : Type 0 where
  pub env_items : List A
  pub env_total_count : ℕ
  pub env_offset : ℕ
  pub env_limit : ℕ

-- The variables of the loop of `fetch_all`.
pub record Progress (A : Type 0) : Type 0 where
  pub collected : List A
  pub at : ℕ
  pub total : ℕ
  pub limit_used : ℕ

pub data Step (A : Type 0) : Type 0 where
  stop : Page A → Step A
  more : Progress A → Step A

abbrev pub finish : {A : Type 0} → Progress A → Bool → Page A
finish p truncated = record {
  items = p.collected;
  total_count = p.total;
  offset = p.at;
  limit = p.limit_used;
  truncated = truncated;
}

-- The loop's body, after an answer.
unfoldable pub advance : {A : Type 0} → Limits → Progress A → Envelope A → Step A
advance limits p env =
    let got = length env.env_items in
    let new_offset = env.env_offset + got in
    let empty = record p { total = env.env_total_count; limit_used = env.env_limit } in
    let stuck = record empty { collected = p.collected ++ env.env_items } in
    let next = record stuck { at = new_offset } in
    if got == 0
    then stop (finish empty (ltb p.at env.env_total_count))
    else if ltb u64_max new_offset
    then stop (finish stuck true)
    else if leb new_offset p.at
    then stop (finish stuck true)
    else if leb env.env_total_count new_offset
    then stop (finish next false)
    else if leb limits.max_items (length next.collected)
    then stop (finish next true)
    else more next

-- What a GET of the path answers, for a limit and an offset in its query.
abbrev pub Ask : Type 0 → Type 0 → Type 0
Ask W A = ℕ → ℕ → W → Result (Envelope A) Error × W

-- The loop of `fetch_all`, on fuel: no result when the fuel runs out.
unfoldable pub walk :
    {W A : Type 0} → Ask W A → Limits → ℕ → ℕ → Progress A → W → Option (Result (Page A) Error × W)
unfolding advance
walk ask limits zero pages_fetched p state = none
walk ask limits (suc fuel) pages_fetched p state =
    let (answer, after) = ask limits.page_size p.at state in
    if leb limits.max_pages pages_fetched
    then some (ok (finish p (ltb p.at p.total)), state)
    else elim answer [
      | err e ↦ some (err e, after)
      | ok env ↦ elim (advance limits p env) [
        | stop page ↦ some (ok page, after)
        | more next ↦ walk ask limits fuel (suc pages_fetched) next after
      ]
    ]

abbrev pub start : {A : Type 0} → Limits → Progress A
start limits = record { collected = []; at = 0; total = 0; limit_used = limits.page_size }

-- `fetch_all`, with fuel for one turn more than the pages.
unfoldable pub fetch_all :
    {W A : Type 0} → Ask W A → Limits → W → Option (Result (Page A) Error × W)
unfolding walk
fetch_all ask limits state = walk ask limits (suc limits.max_pages) 0 (start limits) state

-- The page of one answer.
abbrev pub page_of : {A : Type 0} → Result (Envelope A) Error → Result (Page A) Error
page_of (err e) = err e
page_of (ok env) = ok (record {
  items = env.env_items;
  total_count = env.env_total_count;
  offset = env.env_offset;
  limit = env.env_limit;
  truncated = false;
})

unfoldable pub fetch_page : {W A : Type 0} → Ask W A → ℕ → ℕ → W → Result (Page A) Error × W
fetch_page ask limit offset state =
    let (answer, after) = ask limit offset state in (page_of answer, after)
