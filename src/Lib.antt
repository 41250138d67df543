-- ===== src/Lib.antt =====
-- ruprogress-mcp: its OAuth authorization server, its bearer tokens, its rate limiter, its Redmine
-- client, and the limits on what its tools answer.
--
-- ruprogress-mcp is an MCP server in front of Redmine. In `oauth-proxy` mode it is an
-- authorization server of its own: clients register, run the authorization code flow with PKCE
-- against it, and get opaque proxy tokens; behind those it holds the Redmine tokens. This library
-- models the stores of that server with all their operations, its five endpoints on top of them,
-- the middleware that lets a request in by its proxy token, and the verifier that asks Redmine's
-- introspection endpoint about a bearer token and caches the answer. Behind them stand the client that
-- asks Redmine (its errors, retries, bounded reads and pages), the caps, the pagination metadata and
-- the boundary around foreign text that every tool's answer passes, and the rate limiter in front.
--
-- The parts, and where they are modelled:
--   OauthProxy.Registry      ClientRegistry, crates/ruprogress-mcp/src/oauth/proxy/store.rs
--   OauthProxy.Transactions  TransactionStore, store.rs
--   OauthProxy.Upstream      UpstreamStore: a session is a set of Redmine tokens, store.rs
--   OauthProxy.Codes         CodeStore, store.rs
--   OauthProxy.Tokens        TokenStore, store.rs
--   OauthProxy.Refresh       RefreshStore and InFlightGuard, store.rs
--   OauthProxy.State         ProxyState, store.rs, and the states it can reach
--   OauthProxy.Capacity      sweep_and_check_capacity and expires_after, store.rs
--   OauthProxy.Crypto        digest, mint_opaque_token, mint_client_id, store.rs
--   OauthProxy.Pkce          crates/ruprogress-mcp/src/oauth/proxy/pkce.rs
--   OauthProxy.Flow          mint_token_pair, revoke_upstream_and_purge, sweep_expired_sessions,
--                            crates/ruprogress-mcp/src/oauth/proxy/endpoints.rs
--   OauthProxy.CodeGrant     authorization_code_grant, endpoints.rs
--   OauthProxy.RefreshGrant  refresh_token_grant, endpoints.rs
--   OauthProxy.Token         token, endpoints.rs
--   OauthProxy.Register      register, endpoints.rs
--   OauthProxy.Authorize     authorize and its two phases, endpoints.rs
--   OauthProxy.Redirect      RedirectPattern, RedirectPolicy and the floor,
--                            crates/ruprogress-mcp/src/oauth/proxy/redirect.rs
--   OauthProxy.Callback      auth_callback, endpoints.rs
--   OauthProxy.Scopes        narrow, crates/ruprogress-mcp/src/oauth/scopes.rs
--   OauthProxy.Advertised    advertised, oauth/scopes.rs
--   OauthProxy.Revoke        revoke, endpoints.rs
--   OauthProxy.Requests      the requests that flow_routes, register_route and the middleware serve
--   Auth.Verifier            TokenVerifier, crates/ruprogress-mcp/src/auth/oauth.rs
--   Auth.Bearer              extract_bearer and require_bearer, oauth.rs
--   Auth.Proxy               require_proxy_bearer, crates/ruprogress-mcp/src/auth/proxy.rs
--   Auth.ScopeRule           TOOL_SCOPES, crates/ruprogress-mcp/src/auth/scope.rs
--   Auth.Scope               required_for_call and visible_for, auth/scope.rs, and the gate of
--                            dispatch_tool_call, crates/ruprogress-mcp/src/server.rs
--   RedmineClient.Model      Introspection and OAuthToken, crates/redmine-client/src/model
--   RedmineClient.Errors     Error and from_status, crates/redmine-client/src/error.rs
--   RedmineClient.Retry      crates/redmine-client/src/retry.rs, and read_bounded and
--                            send_with_retry of client.rs
--   RedmineClient.Paging     page.rs, and fetch_all and fetch_page of client.rs
--   Attachments.Name         sanitize_basename, crates/ruprogress-mcp/src/attachments.rs
--   Attachments.Store        AttachmentStore, attachments.rs
--   Attachments.Downloads    get_redmine_attachment and download_and_commit,
--                            crates/ruprogress-mcp/src/tools/files.rs
--   RateLimit                crates/ruprogress-mcp/src/ratelimit.rs
--   Tools.Pagination         Pagination::from_page, crates/ruprogress-mcp/src/tools/output.rs
--   Tools.Caps               apply_caps and set_prefix, output.rs
--   Tools.Routes             write_tools, crates/ruprogress-mcp/src/readonly.rs, and PLUGIN_TOOLS and
--                            RedmineMcp::new, server.rs
--   Tools.Errors             ErrorCode, output.rs, and to_tool_error,
--                            crates/ruprogress-mcp/src/error.rs
--   Tools.Render             sanitize and wrap, crates/ruprogress-mcp/src/render.rs
--   Std                      what the program uses of Rust's standard library: HashMap as an
--                            association list, Instant and Duration in nanoseconds, i64 with its
--                            saturating operations, strings as their UTF-8 bytes, and the parsers
--                            of u16, u64 and IpAddr
--   Tests                    concrete stores and requests
--
-- How the code is modelled. Each store is a value and each operation a function from it to the
-- next value and the answer. Some operations that
-- release their locks are cut there, and other requests can come in between: a code's redemption is
-- `look_up` and then `replay` or `claim`, `refresh_token_grant` is `begin`, up to the await of
-- Redmine's answer, and `finish`, on whatever state it finds afterwards, and `auth_callback` is
-- `callback` and `finish_callback`. Others are one step although they release a lock or await inside:
-- `claim` (store.rs 657-667) and `Refresh.retire` (store.rs 1022-1032) hold two locks one after the
-- other, `verify` introspects between its look into the cache and its write (oauth.rs), and the
-- revocations that the endpoints send are awaited within their handlers. A refresh that is cancelled
-- drops its guard early, and only OauthProxy.Refresh models that drop. Every read of the clock and of the
-- random generator is an argument of the operation that makes it, in the order of the code, so
-- that nothing is assumed of how fast time passes; `none` is a generator that failed. SHA-256 and
-- base64url stand as parameters, in the record `Crypto`, and nothing is assumed of them: where a
-- collision of digests would matter, a theorem says so in its hypotheses. The answers of Redmine
-- are arguments too, and the url and http crates stand as parameters. Revocations that are sent to
-- Redmine are recorded in a list.
--
-- The Redmine client is modelled over a world that is a parameter: what the network sends, what the
-- clock reads, what is drawn at random and how a sleep changes them are functions on a state, so a
-- request is a function from the state before it to its answer, its waits and the state after. The
-- walk over pages takes the request of one page as an argument. A response's body is the list of its
-- chunks, any of which may fail. The caps see of a JSON value its first two levels, and take what
-- serde_json writes as a parameter. The limiter's f64 is an interface, its HashMap an association
-- list whose order is the map's, and the hasher a parameter.
--
-- A download is cut where it awaits, and `run` takes its steps in any order with those of other
-- downloads, lookups and sweeps. Whether a directory was made, a chunk was written and a file could be
-- removed are arguments, and the store's files are not modelled. A sum of sizes wraps around, as in a
-- release build.
--
-- Fuel: `retry_loop` gets one turn more than max_retries and `walk` one more than max_pages, since
-- both count up to these; the binary search of `apply_caps` gets one more than the items, since each
-- turn narrows its range. None of them runs out, and that is proved. Every other loop is a pass over a
-- list. The only bound that the model adds is that of the clock, `instant_max`, beyond which
-- `Instant::checked_add` fails, and the retry loop stays within it.
--
-- Not modelled: the content type, the size limit and the decoding of request bodies, and the
-- rendering of responses (a response is its status and error code, or the minted pair); logging;
-- the texts of messages; the client's methods for each endpoint of
-- Redmine, which build requests for the parts above, and its check of paths and origins; the other
-- tools; the files of attachments and uploads; configuration and transport. Poisoned mutexes are
-- entered as the code does, so a lock never fails.
mod Base
pub mod Std
pub mod RedmineClient
pub mod Auth
pub mod OauthProxy
pub mod Tools
pub mod RateLimit
pub mod Attachments
pub mod Tests
