-- ===== src/RateLimit/Float.antt =====
-- What ratelimit.rs does with an `f64`, as an interface.
use ruprogress_mcp.Base.{Bool, ℕ, nat_eq}

pub record Float (F : Type 0) : Type 0 where
  pub of_u32 : ℕ → F
  -- Whole nanoseconds as seconds: `Duration::as_secs_f64`.
  pub as_secs : ℕ → F
  pub add : F → F → F
  pub sub : F → F → F
  pub mul : F → F → F
  pub div : F → F → F
  pub fmin : F → F → F
  pub ge : F → F → Bool
  pub gt : F → F → Bool
  pub infinity : F
  -- `clamp(1.0, u64::MAX as f64).ceil() as u64`.
  pub clamped_ceil : F → ℕ
