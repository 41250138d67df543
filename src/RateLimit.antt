-- ===== src/RateLimit.antt =====
-- crates/ruprogress-mcp/src/ratelimit.rs: the keyed token buckets.
pub mod Float
pub mod Buckets
pub mod Limiter
pub mod Capacity
pub mod Pristine
