-- ===== src/Auth/Verifier/Sound.antt =====
-- What stands behind a token that the verifier lets in, over a history of calls.
use ruprogress_mcp.Auth.Verifier.Calls.{Call, IsAnswered, IsBacked, IsSound}
use ruprogress_mcp.Auth.Verifier.Backed.{context_from-IsAnswered, entry_of, entry_of-IsBacked}
use ruprogress_mcp.Auth.Verifier.{
  AuthContext, AuthError, Cache, CachedEntry, Refusal, VerifyReads, cache_capacity, cache_get,
  cache_put, cache_ttl, context_from, forbidden, introspect, is_expired, not_found, unauthorized,
  verify, verify_fresh,
}
use ruprogress_mcp.OauthProxy.Crypto.{Crypto, digest}
use ruprogress_mcp.RedmineClient.Model.{Introspection}
use ruprogress_mcp.Std.Clock.{Duration, Instant}
use ruprogress_mcp.Std.Int.{ℤ}
use ruprogress_mcp.Std.Map.{
  remove-Distinct, Distinct, contains_key, get-insert, get-remove, get-retain, len, retain,
}
use ruprogress_mcp.Std.Map
use ruprogress_mcp.Base.{
  Bool, Bool-cases, bytes_beq_iff, Bytes, List, Option-cases, Result, ap, arith, bytes_eq, err,
  false, inl, inr, leb, ltb, nat_eq, not, ok, refl, some, subst, sym, ◌&&◌, ◌==◌, ◌∙◌, ◌∷◌, ◌≡◌,
  ◌⊎◌,
}

module _ (c : Crypto) (ttl : Duration) (calls : List Call) (k : Call) where
  remove-IsSound :
      (key : Bytes) (cache : Cache)
      → IsSound c ttl calls cache
      → IsSound c ttl calls (Map.remove key cache)
  remove-IsSound key cache s j entry context found same =
      s j entry context (ground (arith, found, get-remove j key cache)) same

  retain-IsSound :
      (p : Bytes → CachedEntry → Bool) (cache : Cache)
      → Distinct cache
      → IsSound c ttl calls cache
      → IsSound c ttl calls (retain p cache)
  retain-IsSound p cache d s j entry context found same = elim (Option-cases (Map.get j cache)) [
    | inl absent ↦ ground (arith, found, get-retain p j cache d, absent)
    | inr (e, there) ↦ s j entry context (ground (arith, found, get-retain p j cache d, there)) same
  ]

  earlier : (cache : Cache) → IsSound c ttl calls cache → IsSound c ttl (k ∷ calls) cache
  earlier cache s j entry context found same = inr (s j entry context found same)

  insert-IsSound :
      (introspection : Introspection) (result : Result AuthContext AuthError) (kept : Duration)
      (cache : Cache)
      → k.answer ≡ ok introspection
      → context_from introspection k.token k.reads.check_timestamp ≡ result
      → cache_ttl ttl introspection result k.reads.put_timestamp ≡ some kept
      → IsSound c ttl calls cache
      → IsSound c ttl
          (k ∷ calls)
          (Map.insert (digest c k.token) (entry_of result k.reads.put_at kept) cache)
  insert-IsSound introspection result kept cache answer made ttl_of s j entry context found same =
      let key = digest c k.token in
      let written = entry_of result k.reads.put_at kept in
      elim (Bool-cases (key == j)) [
        | inl here ↦
            let is_entry : written ≡ entry =
              ground (arith, found, get-insert j key written cache, here) in
            let backed =
              entry_of-IsBacked c ttl k introspection result kept context answer made ttl_of
                (ap (λ e. e.value) is_entry ∙ same) in
            inl (
              subst (λ x. IsBacked c ttl x context entry.expires_at k)
                ((bytes_beq_iff key j).0 here)
                (subst (λ e. IsBacked c ttl key context e.expires_at k) is_entry backed))
        | inr elsewhere ↦ inr (
            s j entry context (ground (arith, found, get-insert j key written cache, elsewhere))
              same)
      ]

  cache_put-cases :
      (introspection : Introspection) (result : Result AuthContext AuthError) (cache : Cache)
      (key : Bytes) (timestamp : ℤ) (now : Instant)
      → (cache_put ttl cache key introspection result timestamp now ≡ cache)
        ⊎ ((cache_put ttl cache key introspection result timestamp now
              ≡ retain (λ _ entry. ltb now entry.expires_at) cache)
            ⊎ ((kept : Duration) × (cache_ttl ttl introspection result timestamp ≡ some kept)
                × (cache_put ttl cache key introspection result timestamp now
                    ≡ Map.insert key
                        (entry_of result now kept)
                        (retain (λ _ entry. ltb now entry.expires_at) cache))))
  unfolding cache_put entry_of
  cache_put-cases introspection result cache key timestamp now =
      let p : Bytes → CachedEntry → Bool = λ _ entry. ltb now entry.expires_at in
      let swept = retain p cache in
      elim (Option-cases (cache_ttl ttl introspection result timestamp)) [
        | inl uncached ↦ inl (ground (arith, uncached))
        | inr (kept, ttl_of) ↦ elim (Bool-cases (kept == 0)) [
          | inl nothing ↦ inl (ground (arith, ttl_of, nothing))
          | inr something ↦
              elim (Bool-cases (leb cache_capacity (len swept) && not (contains_key key swept))) [
                | inl full ↦ inr (inl (ground (arith, ttl_of, something, full)))
                | inr room ↦ inr (inr (kept, ttl_of, ground (arith, ttl_of, something, room)))
              ]
        ]
      ]

  cache_put-IsSound :
      (introspection : Introspection) (result : Result AuthContext AuthError) (cache : Cache)
      → k.answer ≡ ok introspection
      → context_from introspection k.token k.reads.check_timestamp ≡ result
      → Distinct cache
      → IsSound c ttl calls cache
      → IsSound c ttl (k ∷ calls) (
          cache_put ttl cache
            (digest c k.token)
            introspection
            result
            k.reads.put_timestamp
            k.reads.put_at)
  cache_put-IsSound introspection result cache answer made d s =
      let p : Bytes → CachedEntry → Bool = λ _ entry. ltb k.reads.put_at entry.expires_at in
      let swept = retain p cache in
      let kept_sound = retain-IsSound p cache d s in
      elim (cache_put-cases introspection result cache (digest c k.token) k.reads.put_timestamp
        k.reads.put_at) [
          | inl same ↦ subst (IsSound c ttl (k ∷ calls)) (sym same) (earlier cache s)
          | inr (inl same) ↦ subst (IsSound c ttl (k ∷ calls)) (sym same) (earlier swept kept_sound)
          | inr (inr (kept, ttl_of, same)) ↦
              subst (IsSound c ttl (k ∷ calls)) (sym same)
                (insert-IsSound introspection result kept swept answer made ttl_of kept_sound)
        ]

  verify_fresh-IsSound :
      (cache : Cache) (answer : Result Introspection Refusal)
      → k.answer ≡ answer
      → Distinct cache
      → IsSound c ttl calls cache
      → IsSound c ttl
          (k ∷ calls)
          (verify_fresh ttl cache (digest c k.token) k.token answer k.reads).0
  unfolding verify_fresh introspect
  verify_fresh-IsSound cache (ok introspection) h d s = elim (Bool-cases (ttl == 0)) [
    | inl off ↦
        subst (IsSound c ttl (k ∷ calls)) {x = cache} (ground (arith, off)) (earlier cache s)
    | inr on ↦
        subst (IsSound c ttl (k ∷ calls)) (ground (arith, on))
          (cache_put-IsSound introspection _ cache h refl d s)
  ]
  verify_fresh-IsSound cache (err unauthorized) h d s = earlier cache s
  verify_fresh-IsSound cache (err forbidden) h d s = earlier cache s
  verify_fresh-IsSound cache (err not_found) h d s = earlier cache s
  verify_fresh-IsSound cache (err Refusal.other) h d s = earlier cache s

  cache_get-cases :
      (cache : Cache) (key : Bytes) (now : Instant) (timestamp : ℤ)
      → ((cache_get cache key now timestamp).0 ≡ cache)
        ⊎ ((cache_get cache key now timestamp).0 ≡ Map.remove key cache)
  unfolding cache_get
  cache_get-cases cache key now timestamp = ground arith

  cache_get-IsSound :
      (cache : Cache) (key : Bytes) (now : Instant) (timestamp : ℤ)
      → IsSound c ttl calls cache
      → IsSound c ttl calls (cache_get cache key now timestamp).0
  cache_get-IsSound cache key now timestamp s = elim (cache_get-cases cache key now timestamp) [
    | inl same ↦ subst (IsSound c ttl calls) (sym same) s
    | inr same ↦ subst (IsSound c ttl calls) (sym same) (remove-IsSound key cache s)
  ]

  verify-cases :
      (cache : Cache) (token : Bytes) (answer : Result Introspection Refusal) (t : VerifyReads)
      → let looked : Cache = (cache_get cache (digest c token) t.get_at t.get_timestamp).0 in
        ((verify c ttl cache token answer t).0 ≡ looked)
        ⊎ (((verify c ttl cache token answer t).0
              ≡ (verify_fresh ttl cache (digest c token) token answer t).0)
            ⊎ ((verify c ttl cache token answer t).0
                ≡ (verify_fresh ttl looked (digest c token) token answer t).0))
  unfolding verify
  verify-cases cache token answer t = elim (Bool-cases (ttl == 0)) [
    | inl off ↦ inr (inl (ground (arith, off)))
    | inr on ↦ elim (Option-cases (cache_get cache (digest c token) t.get_at t.get_timestamp).1) [
      | inl missed ↦ inr (inr (ground (arith, on, missed)))
      | inr (hit, found) ↦ inl (ground (arith, on, found))
    ]
  ]

  cache_get-Distinct :
      (cache : Cache) (key : Bytes) (now : Instant) (timestamp : ℤ)
      → Distinct cache
      → Distinct (cache_get cache key now timestamp).0
  cache_get-Distinct cache key now timestamp d = elim (cache_get-cases cache key now timestamp) [
    | inl same ↦ subst Distinct (sym same) d
    | inr same ↦ subst Distinct (sym same) (remove-Distinct key cache d)
  ]

  pub verify-IsSound :
      (cache : Cache)
      → Distinct cache
      → IsSound c ttl calls cache
      → IsSound c ttl (k ∷ calls) (verify c ttl cache k.token k.answer k.reads).0
  verify-IsSound cache d s =
      let key = digest c k.token in
      let looked = (cache_get cache key k.reads.get_at k.reads.get_timestamp).0 in
      let looked_sound = cache_get-IsSound cache key k.reads.get_at k.reads.get_timestamp s in
      let distinct = cache_get-Distinct cache key k.reads.get_at k.reads.get_timestamp d in
      elim (verify-cases cache k.token k.answer k.reads) [
        | inl same ↦ subst (IsSound c ttl (k ∷ calls)) (sym same) (earlier looked looked_sound)
        | inr (inl same) ↦
            subst (IsSound c ttl (k ∷ calls)) (sym same)
              (verify_fresh-IsSound cache k.answer refl d s)
        | inr (inr same) ↦
            subst (IsSound c ttl (k ∷ calls)) (sym same)
              (verify_fresh-IsSound looked k.answer refl distinct looked_sound)
      ]

  pub verify_fresh-ok :
      (cache : Cache) (key : Bytes) (answer : Result Introspection Refusal) (context : AuthContext)
      → k.answer ≡ answer
      → (verify_fresh ttl cache key k.token answer k.reads).1 ≡ ok context
      → IsAnswered (digest c k.token) c context k
        × (is_expired context.expires_at k.reads.check_timestamp ≡ false)
  unfolding verify_fresh introspect
  verify_fresh-ok cache key (ok introspection) context same h =
      context_from-IsAnswered c ttl k introspection context same h
  verify_fresh-ok cache key (err unauthorized) context same h = ground (arith, h)
  verify_fresh-ok cache key (err forbidden) context same h = ground (arith, h)
  verify_fresh-ok cache key (err not_found) context same h = ground (arith, h)
  verify_fresh-ok cache key (err Refusal.other) context same h = ground (arith, h)
