-- ===== src/Tools/Pagination/Pages.antt =====
-- tools/output.rs: the metadata of one page, and of a page that the walk over all pages made.
use ruprogress_mcp.Tools.Pagination.{from_page, then_some}
use ruprogress_mcp.RedmineClient.Paging.{Ask, Limits, Page, fetch_all, fetch_page, page_of, u64_max}
use ruprogress_mcp.RedmineClient.Paging.Honest.{drop, fetch_all-IsPrefix, slice}
use ruprogress_mcp.Base.{
  Bool-cases, inl, inr, ltb→lt, List, [], arith, is_empty, length, length-take, ltb, min, not, ok,
  refl, some, suc, take, zero, ℕ, ◌+◌, ◌<◌, ◌∷◌, ◌∙◌, ◌≡◌, ◌≤◌, ap, sym,
}

is_empty-drop : {A : Type 0} (n : ℕ) (xs : List A) → not (is_empty (drop n xs)) ≡ ltb n (length xs)
is_empty-drop zero [] = ground arith
is_empty-drop zero (x ∷ xs) = ground arith
is_empty-drop (suc n) [] = ground arith
is_empty-drop (suc n) (x ∷ xs) = is_empty-drop n xs ∙ ground arith

-- A length within the range is compared as if the sum did not saturate.
ltb-min : (a bound n : ℕ) → n ≤ bound → ltb (min a bound) n ≡ ltb a n
ltb-min a bound n low = elim (Bool-cases (ltb a n)) [
  | inl less ↦ ground (arith, less)
  | inr more ↦ ground (arith, more)
]

then_some-min :
    (a bound n : ℕ)
    → n ≤ bound
    → then_some (ltb (min a bound) n) (min a bound) ≡ then_some (ltb (min a bound) n) a
then_some-min a bound n low = elim (Bool-cases (ltb (min a bound) n)) [
  | inl less ↦ rw (less) (ap some (omega (arith, low, ltb→lt (min a bound) n less)))
  | inr more ↦ rw (more) refl
]

nonempty : {A : Type 0} (xs : List A) → ltb 0 (length xs) ≡ not (is_empty xs)
nonempty [] = ground arith
nonempty (x ∷ xs) = ground arith

-- A page of a server that answers with slices of one list of fewer than 2^64 items says that
-- there is a next one exactly when items are left after it, and then names the offset of the
-- first of them; it says that there is a previous one exactly when it does not start the list.
pub fetch_page-from_page :
    {W A : Type 0} (xs : List A) (cap limit offset : ℕ) (ask : Ask W A) (state : W)
    → length xs ≤ u64_max
    → ((n at : ℕ) (s : W) → (ask n at s).0 ≡ ok (slice xs cap n at))
    → (page : Page A) × ((fetch_page ask limit offset state).0 ≡ ok page)
      × ((from_page page).has_next ≡ not (is_empty (drop (offset + length page.items) xs)))
      × ((from_page page).next_offset
          ≡ then_some (from_page page).has_next (offset + length page.items))
      × ((from_page page).has_previous ≡ ltb 0 offset)
unfolding fetch_page from_page
fetch_page-from_page xs cap limit offset ask state small honest =
    let here = honest limit offset state in
    let got : ℕ = length (take (min limit cap) (drop offset xs)) in
    (
      _,
      ap page_of here,
      ltb-min (offset + got) u64_max (length xs) small ∙ sym (is_empty-drop (offset + got) xs),
      then_some-min (offset + got) u64_max (length xs) small,
      refl,
    )

-- A page that the walk over all pages returns is not the page that its metadata describes: from a
-- server as above, its offset is the count of its items, so the metadata says that there is a
-- previous page when there is an item, and that there is a next one when more than twice its
-- items are there.
pub fetch_all-from_page :
    {W A : Type 0} (xs : List A) (limits : Limits) (cap : ℕ) (ask : Ask W A) (state : W)
    → 0 < min limits.page_size cap
    → 0 < limits.max_pages
    → length xs ≤ u64_max
    → ((n at : ℕ) (s : W) → (ask n at s).0 ≡ ok (slice xs cap n at))
    → (page : Page A) × (after : W) × (fetch_all ask limits state ≡ some (ok page, after))
      × ((from_page page).offset ≡ length page.items)
      × ((from_page page).has_previous ≡ not (is_empty page.items))
      × ((from_page page).has_next ≡ ltb (length page.items + length page.items) (length xs))
unfolding from_page
fetch_all-from_page xs limits cap ask state some_size some_pages small honest =
    let (page, after, same, p) =
      fetch_all-IsPrefix xs limits cap ask state some_size some_pages small honest in
    let size : length page.items ≡ page.offset =
      ap length p.has_prefix ∙ length-take page.offset xs ∙ omega (arith, p.within) in
    (
      page,
      after,
      same,
      sym size,
      ap (ltb 0) (sym size) ∙ nonempty page.items,
      ap (ltb (min (page.offset + length page.items) u64_max)) p.has_total
          ∙ ltb-min (page.offset + length page.items) u64_max (length xs) small
          ∙ ap (λ n. ltb (n + length page.items) (length xs)) (sym size),
    )
