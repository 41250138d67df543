-- ===== src/Auth/Proxy.antt =====
-- auth/proxy.rs, `require_proxy_bearer`: a proxy token stands for the upstream token of its
-- session, and it is that token which is verified.
pub mod Admission
use ruprogress_mcp.OauthProxy.Flow.{tokens}
use ruprogress_mcp.Std.Text.{starts_with}
use ruprogress_mcp.Std.Clock.{Duration, Instant}
use ruprogress_mcp.RedmineClient.Model.{Introspection}
use ruprogress_mcp.OauthProxy.Tokens.{TokenStore}
use ruprogress_mcp.OauthProxy.State.{ProxyState}
use ruprogress_mcp.OauthProxy.Crypto.{Crypto}
use ruprogress_mcp.Base.{
  Bytes, List, Option, Result, bytes_eq, codes, err, if◌then◌else◌, none, not, ok, some,
}
use ruprogress_mcp.OauthProxy.Tokens
use ruprogress_mcp.OauthProxy.Upstream
use ruprogress_mcp.OauthProxy.Revoke.{access_token_prefix}
use ruprogress_mcp.Auth.Verifier.{verify, AuthContext, AuthError, Cache, VerifyReads, Refusal}
use ruprogress_mcp.Auth.Bearer.{extract_bearer, Verdict, challenged, refused_for, verdict}

pub record ProxyReads : Type 0 where
  pub resolve_at : Instant
  pub access_at : Instant
  pub verify_reads : VerifyReads

-- The token store after the look-up, and the upstream access token that the token stands for.
unfoldable pub upstream_access :
    Crypto → ProxyState → Bytes → ProxyReads → TokenStore × Option Bytes
upstream_access c p token t =
    let (store, entry) = Tokens.resolve c p.tokens token t.resolve_at in
    elim entry [
      | none ↦ (store, none)
      | some e ↦ (store, Upstream.access_token p.upstream_tokens e.upstream_id t.access_at)
    ]

unfoldable pub admit_token :
    Crypto
    → Duration
    → ProxyState
    → Cache
    → Bytes
    → Result Introspection Refusal
    → ProxyReads
    → ProxyState × Cache × Verdict
unfolding upstream_access
admit_token c ttl p cache token answer t =
    if not (starts_with token access_token_prefix)
    then (p, cache, challenged (some (codes "invalid_token")))
    else let (store, access) = upstream_access c p token t in
      elim access [
        | none ↦ (record p { tokens = store }, cache, challenged (some (codes "invalid_token")))
        | some upstream ↦
            let (kept, result) = verify c ttl cache upstream answer t.verify_reads in
            (record p { tokens = store }, kept, verdict result)
      ]

unfoldable pub require_proxy_bearer :
    Crypto
    → (Bytes → Option Bytes)
    → Duration
    → ProxyState
    → Cache
    → List Bytes
    → Result Introspection Refusal
    → ProxyReads
    → ProxyState × Cache × Verdict
unfolding admit_token
require_proxy_bearer c to_str ttl p cache headers answer t = elim (extract_bearer to_str headers) [
  | err e ↦ (p, cache, refused_for e)
  | ok token ↦ admit_token c ttl p cache token answer t
]
