-- ===== src/Tools.antt =====
-- crates/ruprogress-mcp: what every tool does with its answer.
pub mod Pagination
pub mod Caps
pub mod Errors
pub mod Render
pub mod Routes
