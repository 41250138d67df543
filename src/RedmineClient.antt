-- ===== src/RedmineClient.antt =====
-- crates/redmine-client: the REST client's own logic.
pub mod Errors
pub mod Retry
pub mod Paging
pub mod Model
