-- ===== src/Attachments.antt =====
-- crates/ruprogress-mcp/src/attachments.rs, and the download of tools/files.rs that uses it.
pub mod Name
pub mod Store
pub mod Downloads
pub mod Sizes
pub mod Quota
pub mod Within
