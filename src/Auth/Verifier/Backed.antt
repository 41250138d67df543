-- ===== src/Auth/Verifier/Backed.antt =====
-- oauth.rs: a context that is made from Redmine's answer, and the entry that is written for it.
use ruprogress_mcp.Auth.Verifier.Calls.{Call, IsAnswered, IsBacked}
use ruprogress_mcp.Auth.Verifier.{
  AuthContext, AuthError, CachedEntry, cache_ttl, cache_value, context_from, is_expired, valid,
}
use ruprogress_mcp.OauthProxy.Crypto.{Crypto, digest}
use ruprogress_mcp.RedmineClient.Model.{Introspection}
use ruprogress_mcp.Std.Clock.{Duration, Instant, checked_add}
use ruprogress_mcp.Std.Int.{ℤ}
use ruprogress_mcp.Base.{
  Option-cases, Result, arith, bytes_eq, err, false, inl, inr, nat_eq, none, ok, refl, some, subst,
  ◌+◌, ◌≡◌, ◌≤◌,
}

cache_ttl-le :
    (ttl kept : Duration) (introspection : Introspection) (context : AuthContext) (timestamp : ℤ)
    → cache_ttl ttl introspection (ok context) timestamp ≡ some kept
    → kept ≤ ttl
unfolding cache_ttl
cache_ttl-le ttl kept introspection context timestamp h = ground (arith, h)

unfoldable pub entry_of : Result AuthContext AuthError → Instant → Duration → CachedEntry
unfolding cache_value
entry_of result now kept = record {
  value = cache_value result;
  expires_at = elim (checked_add now kept) [ none ↦ now | some at ↦ at ];
}

module _ (c : Crypto) (ttl : Duration) (k : Call) where
  -- What a fresh answer of Redmine stands behind.
  pub context_from-IsAnswered :
      (introspection : Introspection) (context : AuthContext)
      → k.answer ≡ ok introspection
      → context_from introspection k.token k.reads.check_timestamp ≡ ok context
      → IsAnswered (digest c k.token) c context k
        × (is_expired context.expires_at k.reads.check_timestamp ≡ false)
  unfolding context_from
  context_from-IsAnswered introspection context answer h = (
    record {
      introspection = introspection;
      same_digest = refl;
      answered = answer;
      active = ground (arith, h);
      same_token = ground (arith, h);
      same_scopes = ground (arith, h);
      same_end = ground (arith, h);
    },
    ground (arith, h),
  )

  entry_of-until :
      (result : Result AuthContext AuthError) (now kept : Duration)
      → kept ≤ ttl
      → (entry_of result now kept).expires_at ≤ now + ttl
  unfolding entry_of
  entry_of-until result now kept h = elim (Option-cases (checked_add now kept)) [
    | inl beyond ↦ ground (arith, h, beyond)
    | inr (at, added) ↦ ground (arith, h, added)
  ]

  pub entry_of-IsBacked :
      (introspection : Introspection) (result : Result AuthContext AuthError) (kept : Duration)
      (context : AuthContext)
      → k.answer ≡ ok introspection
      → context_from introspection k.token k.reads.check_timestamp ≡ result
      → cache_ttl ttl introspection result k.reads.put_timestamp ≡ some kept
      → (entry_of result k.reads.put_at kept).value ≡ valid context
      → IsBacked c ttl (digest c k.token) context (entry_of result k.reads.put_at kept).expires_at k
  unfolding entry_of cache_value
  entry_of-IsBacked introspection (err e) kept context answer made ttl_of same =
      ground (arith, same)
  entry_of-IsBacked introspection (ok found) kept context answer made ttl_of same =
      let is_context : found ≡ context = ground (arith, same) in
      (
        subst (λ x. IsAnswered (digest c k.token) c x k) is_context
            (context_from-IsAnswered introspection found answer made).0,
        entry_of-until (ok found) k.reads.put_at kept
            (cache_ttl-le ttl kept introspection found k.reads.put_timestamp ttl_of),
      )
