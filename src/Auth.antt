-- ===== src/Auth.antt =====
-- crates/ruprogress-mcp/src/auth: who a request is from.
pub mod ScopeRule
pub mod Scope
pub mod Verifier
pub mod Bearer
pub mod Proxy
