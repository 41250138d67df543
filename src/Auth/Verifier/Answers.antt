-- ===== src/Auth/Verifier/Answers.antt =====
-- What `verify` answers, and what it keeps.
use ruprogress_mcp.Std.Map.{
  Distinct, len, len-remove-le, remove-Distinct, get-remove, insert-Distinct, len-insert,
  len-retain-le, retain, retain-Distinct, get-insert,
}
use ruprogress_mcp.Std.Int.{ℤ}
use ruprogress_mcp.Std.Clock.{Duration, Instant, checked_add}
use ruprogress_mcp.RedmineClient.Model.{Introspection}
use ruprogress_mcp.OauthProxy.Crypto.{Crypto, digest}
use ruprogress_mcp.Base.{
  Bytes, Result, [], arith, bytes_eq, false, ok, true, ◌≡◌, ◌≤◌, ◌⊎◌, ==_refl, Bool, Option-cases,
  inl, inr, ltb, none, some, err, suc, ◌+◌, ◌<◌,
}
use ruprogress_mcp.Std.Map
use ruprogress_mcp.Auth.Verifier.{
  verify, verify_fresh, cache_get, recheck, Cache, AuthContext, VerifyReads, Refusal, is_expired,
  cache_put, cache_ttl, cache_value, context_from, introspect, purge, CachedEntry, cache_capacity,
  AuthError, forbidden, not_found, unauthorized, valid,
}

-- Where the cache is within its bound and holds no key twice.
pub record IsCache (cache : Cache) : Type 0 where
  pub distinct : Distinct cache
  pub bounded : len cache ≤ cache_capacity

cache_get-IsCache :
    (cache : Cache) (key : Bytes) (now : Instant) (timestamp : ℤ)
    → IsCache cache
    → IsCache (cache_get cache key now timestamp).0
unfolding cache_get
cache_get-IsCache cache key now timestamp ok_cache =
    let removed : IsCache (Map.remove key cache) = record {
      distinct = remove-Distinct key cache ok_cache.distinct;
      bounded = ground (arith, len-remove-le key cache, ok_cache.bounded);
    } in
    ground (arith, removed)

cache_put-IsCache :
    (ttl : Duration) (cache : Cache) (key : Bytes) (introspection : Introspection)
    (result : Result AuthContext AuthError) (timestamp : ℤ) (now : Instant)
    → IsCache cache
    → IsCache (cache_put ttl cache key introspection result timestamp now)
unfolding cache_put
cache_put-IsCache ttl cache key introspection result timestamp now h =
    let p : Bytes → CachedEntry → Bool = λ _ entry. ltb now entry.expires_at in
    let swept = retain p cache in
    let small = len-retain-le p cache in
    let d = retain-Distinct p cache h.distinct in
    elim (Option-cases (cache_ttl ttl introspection result timestamp)) [
      | inl none_kept ↦ ground (arith, h, none_kept)
      | inr (kept, found) ↦
          let entry : CachedEntry = record {
            value = cache_value result;
            expires_at = elim (checked_add now kept) [ none ↦ now | some at ↦ at ];
          } in
          record {
            distinct = ground (arith, found, h.distinct, d, insert-Distinct key entry swept d);
            bounded = ground (arith, found, h.bounded, small, len-insert key entry swept);
          }
    ]

-- A token that is let in was active, and not past its end when that was last looked at: either
-- when the cache was read, or when Redmine's answer was.
pub verify-ok :
    (c : Crypto) (ttl : Duration) (cache : Cache) (token : Bytes)
    (answer : Result Introspection Refusal) (t : VerifyReads) (context : AuthContext)
    → (verify c ttl cache token answer t).1 ≡ ok context
    → (is_expired context.expires_at t.get_timestamp ≡ false)
      ⊎ ((introspection : Introspection) × (answer ≡ ok introspection)
          × (introspection.active ≡ true)
          × (context.token ≡ token)
          × (is_expired context.expires_at t.check_timestamp ≡ false))
unfolding verify verify_fresh cache_get recheck introspect context_from
verify-ok c ttl cache token answer t context h = ground (arith, h)

-- After a purge the cache does not answer for the token: Redmine does.
pub verify-purge :
    (c : Crypto) (ttl : Duration) (cache : Cache) (token : Bytes)
    (answer : Result Introspection Refusal) (t : VerifyReads)
    → (verify c ttl (purge c cache token) token answer t).1 ≡ (verify c 0 [] token answer t).1
unfolding verify verify_fresh cache_get purge
verify-purge c ttl cache token answer t =
    ground (arith, get-remove (digest c token) (digest c token) cache, ==_refl (digest c token))

-- A token that was let in is let in again from the cache, whatever Redmine would say, until the
-- entry's end: for as long as the cache may keep it, and never past the token's own end.
pub verify-verify :
    (c : Crypto) (ttl kept : Duration) (cache : Cache) (token : Bytes)
    (introspection : Introspection) (answer : Result Introspection Refusal) (t u : VerifyReads)
    (context : AuthContext)
    → (verify_fresh ttl cache (digest c token) token (ok introspection) t).1 ≡ ok context
    → cache_ttl ttl introspection (ok context) t.put_timestamp ≡ some kept
    → 0 < ttl
    → 0 < kept
    → suc (len cache) ≤ cache_capacity
    → checked_add t.put_at kept ≡ some (t.put_at + kept)
    → u.get_at < t.put_at + kept
    → is_expired context.expires_at u.get_timestamp ≡ false
    → (verify c ttl
        (verify_fresh ttl cache (digest c token) token (ok introspection) t).0
        token
        answer
        u).1
      ≡ ok context
unfolding verify verify_fresh cache_put cache_get introspect recheck cache_value
verify-verify c ttl kept cache token introspection answer t u context h k pos_ttl pos_kept room add
      live fresh =
    let swept = retain (λ (_ : Bytes) (entry : CachedEntry). ltb t.put_at entry.expires_at) cache in
    let entry : CachedEntry = record { value = valid context; expires_at = t.put_at + kept } in
    ground (
      arith,
      h,
      k,
      add,
      live,
      fresh,
      room,
      get-insert (digest c token) (digest c token) entry swept,
      ==_refl (digest c token),
      len-retain-le (λ (_ : Bytes) (entry : CachedEntry). ltb t.put_at entry.expires_at) cache,
    )

verify_fresh-IsCache :
    (ttl : Duration) (cache : Cache) (key token : Bytes) (answer : Result Introspection Refusal)
    (t : VerifyReads)
    → IsCache cache
    → IsCache (verify_fresh ttl cache key token answer t).0
unfolding verify_fresh introspect
verify_fresh-IsCache ttl cache key token (ok introspection) t h = ground (
  arith,
  h,
  cache_put-IsCache ttl cache key introspection (context_from introspection token t.check_timestamp)
      t.put_timestamp t.put_at h,
)
verify_fresh-IsCache ttl cache key token (err unauthorized) t h = h
verify_fresh-IsCache ttl cache key token (err forbidden) t h = h
verify_fresh-IsCache ttl cache key token (err not_found) t h = h
verify_fresh-IsCache ttl cache key token (err Refusal.other) t h = h

-- `verify` keeps the cache within its bound of entries.
pub verify-IsCache :
    (c : Crypto) (ttl : Duration) (cache : Cache) (token : Bytes)
    (answer : Result Introspection Refusal) (t : VerifyReads)
    → IsCache cache
    → IsCache (verify c ttl cache token answer t).0
unfolding verify
verify-IsCache c ttl cache token answer t h =
    let key = digest c token in
    let looked = cache_get-IsCache cache key t.get_at t.get_timestamp h in
    ground (
      arith,
      verify_fresh-IsCache ttl cache key token answer t h,
      looked,
      verify_fresh-IsCache ttl (cache_get cache key t.get_at t.get_timestamp).0 key token answer t
          looked,
    )

-- An answer that says nothing of the token, such as a network failure, is not cached.
pub verify-unavailable :
    (c : Crypto) (ttl : Duration) (cache : Cache) (token : Bytes) (refusal : Refusal)
    (t : VerifyReads) (key : Bytes)
    → Map.get key cache ≡ none
    → Map.get key (verify c ttl cache token (err refusal) t).0 ≡ none
unfolding verify verify_fresh cache_get introspect
verify-unavailable c ttl cache token refusal t key h =
    let gone = get-remove key (digest c token) cache in
    elim refusal [
      | unauthorized ↦ ground (arith, h, gone)
      | forbidden ↦ ground (arith, h, gone)
      | not_found ↦ ground (arith, h, gone)
      | Refusal.other ↦ ground (arith, h, gone)
    ]
