-- ===== src/Auth/Proxy/Admission.antt =====
-- Which requests the proxy lets in.
use ruprogress_mcp.Std.Map.{Distinct}
use ruprogress_mcp.OauthProxy.Upstream.{UpstreamTokenSet}
use ruprogress_mcp.OauthProxy.State.Sessions.{take_session_lem}
use ruprogress_mcp.Std.Text.{starts_with}
use ruprogress_mcp.Std.Clock.{Duration, Instant}
use ruprogress_mcp.RedmineClient.Model.{Introspection}
use ruprogress_mcp.OauthProxy.Tokens.{TokenEntry}
use ruprogress_mcp.OauthProxy.State.{ProxyState, take_session}
use ruprogress_mcp.OauthProxy.Crypto.{Crypto, digest}
use ruprogress_mcp.Base.{
  Result-cases, Bytes, List, Option, Result, arith, bytes_eq, err, ok, some, true, ◌≡◌, ◌≢◌,
  ==_refl, Option-cases, [], inl, inr, ◌<◌, subst, sym,
}
use ruprogress_mcp.OauthProxy.Tokens
use ruprogress_mcp.Std.Map
use ruprogress_mcp.OauthProxy.Upstream
use ruprogress_mcp.OauthProxy.Revoke.{access_token_prefix}
use ruprogress_mcp.Auth.Verifier.{
  verify, AuthContext, AuthError, Cache, Refusal, invalid_token, unavailable, misconfigured,
}
use ruprogress_mcp.Auth.Bearer.{
  extract_bearer, refused_for, verdict, admitted, malformed, missing, BearerError,
}
use ruprogress_mcp.Auth.Proxy.{require_proxy_bearer, admit_token, upstream_access, ProxyReads}

-- Behind a request that is let in: its token, the token's entry, which has not expired, the session
-- with its upstream token, before its deadline, and the verifier's answer about that token.
pub record IsAdmitted (c : Crypto) (to_str : Bytes → Option Bytes) (ttl : Duration) (p : ProxyState)
    (cache : Cache) (headers : List Bytes) (answer : Result Introspection Refusal) (t : ProxyReads)
    (context : AuthContext) : Type 0 where
  pub presented : Bytes
  pub entry : TokenEntry
  pub until : Instant
  pub set : UpstreamTokenSet
  pub deadline : Instant
  pub extracted : extract_bearer to_str headers ≡ ok presented
  pub prefixed : starts_with presented access_token_prefix ≡ true
  pub resolved : (Tokens.resolve c p.tokens presented t.resolve_at).1 ≡ some entry
  pub stored : Map.get (digest c presented) p.tokens ≡ some (entry, until)
  pub unexpired : t.resolve_at < until
  pub held : Map.get entry.upstream_id p.upstream_tokens ≡ some (set, deadline)
  pub ongoing : t.access_at < deadline
  pub verified : (verify c ttl cache set.access answer t.verify_reads).1 ≡ ok context

verdict-admitted :
    (result : Result AuthContext AuthError) (context : AuthContext)
    → verdict result ≡ admitted context
    → result ≡ ok context
unfolding verdict
verdict-admitted (ok found) context h = ground (arith, h)
verdict-admitted (err (invalid_token reason)) context h = absurd (ground (arith, h))
verdict-admitted (err unavailable) context h = absurd (ground (arith, h))
verdict-admitted (err misconfigured) context h = absurd (ground (arith, h))

refused_for-admitted : (e : BearerError) (context : AuthContext) → refused_for e ≢ admitted context
unfolding refused_for
refused_for-admitted missing context h = ground (arith, h)
refused_for-admitted (malformed reason) context h = ground (arith, h)

resolve-stored :
    (c : Crypto) (store : Tokens.TokenStore) (token : Bytes) (now : Instant) (entry : TokenEntry)
    → (Tokens.resolve c store token now).1 ≡ some entry
    → (until : Instant) × (Map.get (digest c token) store ≡ some (entry, until)) × (now < until)
unfolding Tokens.resolve
resolve-stored c store token now entry h = elim (Option-cases (Map.get (digest c token) store)) [
  | inl absent ↦ ground (arith, h, absent)
  | inr ((found, until), there) ↦ (until, ground (arith, h, there), ground (arith, h, there))
]

access_token-open :
    (store : Upstream.UpstreamStore) (id : Bytes) (now : Instant) (access : Bytes)
    → Upstream.access_token store id now ≡ some access
    → (set : UpstreamTokenSet) × (deadline : Instant) × (Map.get id store ≡ some (set, deadline))
      × (now < deadline)
      × (set.access ≡ access)
unfolding Upstream.access_token
access_token-open store id now access h = elim (Option-cases (Map.get id store)) [
  | inl absent ↦ ground (arith, h, absent)
  | inr ((set, deadline), there) ↦
      (set, deadline, there, ground (arith, h, there), ground (arith, h, there))
]

module _ (c : Crypto) (to_str : Bytes → Option Bytes) (ttl : Duration) (p : ProxyState)
    (cache : Cache) (headers : List Bytes) (answer : Result Introspection Refusal) (t : ProxyReads)
    (context : AuthContext) where
  -- A request that is let in carries a well-formed proxy token that is stored and has not
  -- expired, and its session is stored and before its deadline; the verifier accepts the
  -- session's upstream token: that is what is verified, never the token presented.
  pub require_proxy_bearer-IsAdmitted :
      (require_proxy_bearer c to_str ttl p cache headers answer t).2 ≡ admitted context
      → IsAdmitted c to_str ttl p cache headers answer t context
  unfolding require_proxy_bearer admit_token upstream_access
  require_proxy_bearer-IsAdmitted h = elim (Result-cases (extract_bearer to_str headers)) [
    | inr (e, failed) ↦ absurd (refused_for-admitted e context (ground (arith, h, failed)))
    | inl (presented, extracted) ↦
        elim (Option-cases (Tokens.resolve c p.tokens presented t.resolve_at).1) [
          | inl unresolved ↦ absurd (ground (arith, h, extracted, unresolved))
          | inr (entry, resolved) ↦
              elim (Option-cases
                (Upstream.access_token p.upstream_tokens entry.upstream_id t.access_at)) [
                  | inl ended ↦ absurd (ground (arith, h, extracted, resolved, ended))
                  | inr (access, held) ↦
                      let (until, stored, unexpired) =
                        resolve-stored c p.tokens presented t.resolve_at entry resolved in
                      let (set, deadline, session, ongoing, same) =
                        access_token-open p.upstream_tokens entry.upstream_id t.access_at access
                          held in
                      record {
                        presented = presented;
                        entry = entry;
                        until = until;
                        set = set;
                        deadline = deadline;
                        stored = stored;
                        unexpired = unexpired;
                        ongoing = ongoing;
                        extracted = extracted;
                        prefixed = ground (arith, h, extracted);
                        resolved = resolved;
                        held = session;
                        verified =
                            subst (λ a. (verify c ttl cache a answer t.verify_reads).1 ≡ ok context)
                              (sym same)
                              (verdict-admitted (verify c ttl cache access answer t.verify_reads).1
                                context (ground (arith, h, extracted, resolved, held)));
                      }
                ]
        ]
  ]

-- Once its session was taken, a token lets no request in, whatever the cache holds and whatever
-- Redmine answers. No key of the token store may occur twice.
pub require_proxy_bearer-take_session :
    (c : Crypto) (to_str : Bytes → Option Bytes) (ttl : Duration) (p : ProxyState) (cache : Cache)
    (headers : List Bytes) (answer : Result Introspection Refusal) (t : ProxyReads)
    (context : AuthContext) (presented : Bytes) (entry : TokenEntry) (set : UpstreamTokenSet)
    → Distinct p.tokens
    → extract_bearer to_str headers ≡ ok presented
    → (Tokens.resolve c p.tokens presented t.resolve_at).1 ≡ some entry
    → (take_session p entry.upstream_id).1 ≡ some set
    → (require_proxy_bearer c to_str ttl
        (take_session p entry.upstream_id).0
        cache
        headers
        answer
        t).2
      ≢ admitted context
require_proxy_bearer-take_session c to_str ttl p cache headers answer t context presented entry set
      d extracted resolved taken let_in =
    let r =
      require_proxy_bearer-IsAdmitted c to_str ttl (take_session p entry.upstream_id).0 cache
        headers answer t context let_in in
    let gone =
      take_session_lem c p entry.upstream_id set presented presented t.resolve_at t.resolve_at [] d
        taken in
    let same : r.presented ≡ presented = ground (arith, r.extracted, extracted) in
    let found = r.resolved in
    ground (arith, same, found, gone.1, resolved, ==_refl entry.upstream_id)
