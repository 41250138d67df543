-- ===== src/Auth/Verifier.antt =====
-- auth/oauth.rs, `TokenVerifier`: introspected bearer tokens and their cache. The answer of the
-- introspection endpoint is an argument of `verify`, as are the reads of the two clocks.
pub mod Answers
pub mod Calls
pub mod Backed
pub mod Sound
pub mod Active
use ruprogress_mcp.Std.Map.{HashMap, contains_key, len, retain}
use ruprogress_mcp.Std.Int.{leb_ℤ, pos, pos_part, saturating_add, saturating_sub, ℤ}
use ruprogress_mcp.Std.Clock.{Duration, Instant, checked_add, from_secs}
use ruprogress_mcp.RedmineClient.Model.{scopes, Introspection}
use ruprogress_mcp.OauthProxy.Crypto.{Crypto, digest}
use ruprogress_mcp.Base.{
  Bool, Bytes, List, Option, Result, bytes_eq, codes, err, false, if◌then◌else◌, leb, ltb, min,
  nat_eq, none, not, or_else, some, ℕ, ◌&&◌, ◌==◌, ok,
}
use ruprogress_mcp.Std.Map

abbrev pub clock_skew_secs : ℤ
clock_skew_secs = pos 5

abbrev pub negative_cache_ttl : Duration
negative_cache_ttl = from_secs 5

abbrev pub cache_capacity : ℕ
cache_capacity = 1024

pub record AuthContext : Type 0 where
  pub token : Bytes
  pub subject : Option Bytes
  pub scopes : List Bytes
  pub expires_at : Option ℤ

pub data AuthError : Type 0 where
  invalid_token : Bytes → AuthError
  unavailable misconfigured : AuthError

pub data CacheValue : Type 0 where
  valid : AuthContext → CacheValue
  invalid : CacheValue

pub record CachedEntry : Type 0 where
  pub value : CacheValue
  pub expires_at : Instant

abbrev pub Cache : Type 0
Cache = HashMap Bytes CachedEntry

-- `timestamp` is the wall clock, in Unix seconds.
unfoldable pub is_expired : Option ℤ → ℤ → Bool
is_expired none timestamp = false
is_expired (some exp) timestamp = leb_ℤ exp (saturating_add timestamp clock_skew_secs)

unfoldable pub context_from : Introspection → Bytes → ℤ → Result AuthContext AuthError
unfolding is_expired scopes
context_from introspection token timestamp =
    if not introspection.active
    then err (invalid_token (codes "token is not active"))
    else if is_expired introspection.exp timestamp
    then err (invalid_token (codes "token is expired"))
    else ok (record {
      token = token;
      subject = or_else introspection.sub introspection.username;
      scopes = scopes introspection;
      expires_at = introspection.exp;
    })

-- What a live entry answers; `none` drops it.
unfoldable pub recheck : CacheValue → ℤ → Option (Result AuthContext AuthError)
unfolding is_expired
recheck (valid context) timestamp =
    if is_expired context.expires_at timestamp then none else some (ok context)
recheck invalid timestamp = some (err (invalid_token (codes "token is not active")))

unfoldable pub cache_get :
    Cache → Bytes → Instant → ℤ → Cache × Option (Result AuthContext AuthError)
unfolding recheck
cache_get cache key now timestamp = elim (Map.get key cache) [
  | none ↦ (cache, none)
  | some entry ↦
      if leb entry.expires_at now
      then (Map.remove key cache, none)
      else elim (recheck entry.value timestamp) [
        | none ↦ (Map.remove key cache, none)
        | some answer ↦ (cache, some answer)
      ]
]

-- How long a result may be cached; `none` if not at all.
unfoldable pub cache_ttl :
    Duration → Introspection → Result AuthContext AuthError → ℤ → Option Duration
cache_ttl ttl introspection (ok context) timestamp = elim introspection.exp [
  | none ↦ some ttl
  | some exp ↦
      let remaining_secs = saturating_sub (saturating_sub exp timestamp) clock_skew_secs in
      if leb_ℤ remaining_secs (pos 0)
      then none
      else some (min ttl (from_secs (pos_part remaining_secs)))
]
cache_ttl ttl introspection (err (invalid_token reason)) timestamp = some negative_cache_ttl
cache_ttl ttl introspection (err unavailable) timestamp = none
cache_ttl ttl introspection (err misconfigured) timestamp = none

unfoldable pub cache_value : Result AuthContext AuthError → CacheValue
cache_value (ok context) = valid context
cache_value (err e) = invalid

unfoldable pub cache_put :
    Duration → Cache → Bytes → Introspection → Result AuthContext AuthError → ℤ → Instant → Cache
unfolding cache_ttl cache_value
cache_put ttl cache key introspection result timestamp now =
    elim (cache_ttl ttl introspection result timestamp) [
      | none ↦ cache
      | some kept ↦
          if kept == 0
          then cache
          else let swept = retain (λ _ entry. ltb now entry.expires_at) cache in
            if leb cache_capacity (len swept) && not (contains_key key swept)
            then swept
            else Map.insert key
                (record {
                  value = cache_value result;
                  expires_at = elim (checked_add now kept) [ none ↦ now | some at ↦ at ];
                })
                swept
    ]

-- What `introspect` makes of the endpoint's answer.
pub data Refusal : Type 0 where
  unauthorized forbidden not_found other : Refusal

unfoldable pub introspect : Result Introspection Refusal → Result Introspection AuthError
introspect (ok introspection) = ok introspection
introspect (err unauthorized) = err misconfigured
introspect (err forbidden) = err misconfigured
introspect (err not_found) = err misconfigured
introspect (err other) = err unavailable

-- The reads of one `verify`: the look-up's, the check's and the write's.
pub record VerifyReads : Type 0 where
  pub get_at : Instant
  pub get_timestamp : ℤ
  pub check_timestamp : ℤ
  pub put_timestamp : ℤ
  pub put_at : Instant

-- After a miss.
unfoldable pub verify_fresh :
    Duration
    → Cache
    → Bytes
    → Bytes
    → Result Introspection Refusal
    → VerifyReads
    → Cache × Result AuthContext AuthError
unfolding introspect context_from cache_put
verify_fresh ttl cache key token answer t = elim (introspect answer) [
  | err e ↦ (cache, err e)
  | ok introspection ↦
      let result = context_from introspection token t.check_timestamp in
      (
        if ttl == 0
            then cache
            else cache_put ttl cache key introspection result t.put_timestamp t.put_at,
        result,
      )
]

module _ (c : Crypto) where
  unfoldable pub verify :
      Duration
      → Cache
      → Bytes
      → Result Introspection Refusal
      → VerifyReads
      → Cache × Result AuthContext AuthError
  unfolding digest cache_get verify_fresh
  verify ttl cache token answer t =
      let key = digest c token in
      if ttl == 0
      then verify_fresh ttl cache key token answer t
      else let (looked, cached) = cache_get cache key t.get_at t.get_timestamp in
        elim cached [
          | some result ↦ (looked, result)
          | none ↦ verify_fresh ttl looked key token answer t
        ]

  unfoldable pub purge : Cache → Bytes → Cache
  unfolding digest
  purge cache token = Map.remove (digest c token) cache
