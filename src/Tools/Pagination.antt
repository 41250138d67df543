-- ===== src/Tools/Pagination.antt =====
-- tools/output.rs: the pagination metadata of a page.
pub mod Pages
use ruprogress_mcp.RedmineClient.Paging.{Page, u64_max}
use ruprogress_mcp.Base.{
  Bool, List, Option, if◌then◌else◌, leb, length, ltb, min, none, not, some, ℕ, ◌+◌, ◌-◌,
}

pub record Pagination : Type 0 where
  pub total : ℕ
  pub limit : ℕ
  pub offset : ℕ
  pub has_next : Bool
  pub has_previous : Bool
  pub next_offset : Option ℕ
  pub previous_offset : Option ℕ
  pub truncated : Bool

-- `bool::then_some`.
abbrev pub then_some : Bool → ℕ → Option ℕ
then_some b n = if b then some n else none

-- `Pagination::from_page`, whose hint is none.
unfoldable pub from_page : {A : Type 0} → Page A → Pagination
from_page page =
    let collected_end = min (page.offset + length page.items) u64_max in
    let has_next = ltb collected_end page.total_count in
    let has_previous = ltb 0 page.offset in
    record {
      total = page.total_count;
      limit = page.limit;
      offset = page.offset;
      has_next = has_next;
      has_previous = has_previous;
      next_offset = then_some has_next collected_end;
      previous_offset = then_some has_previous (page.offset - page.limit);
      truncated = page.truncated;
    }
