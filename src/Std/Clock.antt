-- ===== src/Std/Clock.antt =====
-- `std::time::Instant` and `Duration`, in nanoseconds. Every read of the clock is an argument of
-- the operation that makes it.
use ruprogress_mcp.Base.{ℕ, ◌+◌, ◌-◌, ◌*◌, ◌^◌, Option, none, some, leb, if◌then◌else◌}

abbrev pub Instant : Type 0
Instant = ℕ

abbrev pub Duration : Type 0
Duration = ℕ

abbrev pub from_secs : ℕ → Duration
from_secs n = n * 1_000_000_000

abbrev pub from_mins : ℕ → Duration
from_mins n = from_secs (n * 60)

abbrev pub from_hours : ℕ → Duration
from_hours n = from_secs (n * 3600)

-- The last instant that the clock can represent: seconds in 63 bits.
abbrev pub instant_max : Instant
instant_max = 2 ^ 63 * 1_000_000_000 - 1

abbrev pub checked_add : Instant → Duration → Option Instant
checked_add now ttl = if leb (now + ttl) instant_max then some (now + ttl) else none

-- Also `checked_duration_since(..).unwrap_or(Duration::ZERO)`.
abbrev pub saturating_duration_since : Instant → Instant → Duration
saturating_duration_since later earlier = later - earlier

-- The clock as `expires_after` reads it: `now` first, and `again` if the sum with the duration
-- cannot be represented.
pub record Reads : Type 0 where
  pub now : Instant
  pub again : Instant
