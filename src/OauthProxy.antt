-- ===== src/OauthProxy.antt =====
-- crates/ruprogress-mcp/src/oauth/proxy: the authorization server that fronts Redmine's own.
pub mod Crypto
pub mod Capacity
pub mod Redirect
pub mod Advertised
pub mod Registry
pub mod Transactions
pub mod Upstream
pub mod Codes
pub mod Tokens
pub mod Token
pub mod Refresh
pub mod Pkce
pub mod State
pub mod Flow
pub mod CodeGrant
pub mod RefreshGrant
pub mod Revoke
pub mod Requests
pub mod Register
pub mod Callback
pub mod Authorize
pub mod Scopes
