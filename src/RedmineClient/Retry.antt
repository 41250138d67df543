-- ===== src/RedmineClient/Retry.antt =====
-- crates/redmine-client: retry.rs, `read_bounded` and `send_with_retry` of client.rs.
pub mod Bounds
pub mod Outcomes
use ruprogress_mcp.RedmineClient.Errors.{
  Error, ErrorBodies, Transport, api, from_status, is_retryable, is_success, limit_exceeded,
  rate_limited, transport, config,
}
use ruprogress_mcp.Std.Int.{ℤ, negsuc, pos}
use ruprogress_mcp.Std.Net.{parse_u64}
use ruprogress_mcp.Std.Text.{trim}
use ruprogress_mcp.Base.{
  Bool, Bytes, List, Option, Result, [], and_then, err, false, if◌then◌else◌, length, leb, ltb, min,
  nat_eq, none, not, ok, some, suc, true, zero, ℕ, ◌&&◌, ◌*◌, ◌++◌, ◌+◌, ◌-◌, ◌/◌, ◌==◌, ◌>>=◌, ◌^◌,
  ◌∷◌,
}

pub data Method : Type 0 where
  get : Method
  head : Method
  post : Method
  put : Method
  delete : Method

-- Durations are in nanoseconds, up to `Duration::MAX`.
abbrev pub duration_max : ℕ
duration_max = (2 ^ 64 - 1) * 1000000000 + 999999999

abbrev pub u32_max : ℕ
u32_max = 2 ^ 32 - 1

abbrev pub u64_max : ℕ
u64_max = 2 ^ 64 - 1

pub record RetryPolicy : Type 0 where
  pub max_retries : ℕ
  pub base : ℕ
  pub max_backoff : ℕ

unfoldable pub method_is_retryable : Method → Bool
method_is_retryable get = true
method_is_retryable head = true
method_is_retryable _ = false

-- `2u32.checked_pow(attempt).unwrap_or(u32::MAX)`.
unfoldable pub backoff_factor : ℕ → ℕ
backoff_factor attempt = if ltb attempt 32 then 2 ^ attempt else u32_max

-- The delay that a number of milliseconds up to the cap is drawn for.
unfoldable pub backoff_cap : RetryPolicy → ℕ → ℕ
unfolding backoff_factor
backoff_cap policy attempt =
    min
      (min ((min (policy.base * backoff_factor attempt) duration_max)) policy.max_backoff / 1000000)
      u64_max

-- A request: its method, and whether reqwest can clone its body.
pub record Template : Type 0 where
  pub method : Method
  pub cloneable : Bool

-- A response as the program reads it: the text of its `Retry-After`, and a body that comes in
-- chunks, of which
-- one may fail. The world after `send` is the one in which they have come.
pub record Response : Type 0 where
  pub code : ℕ
  pub content_length : Option ℕ
  pub retry_after_header : Option Bytes
  pub chunks : List (Result Bytes Transport)

-- The network, the clock and the random numbers, and what the libraries parse.
pub record World (W : Type 0) : Type 0 where
  pub send : W → Result Response Transport × W
  pub now : W → ℕ
  pub sleep : ℕ → W → W
  pub random_range : ℕ → W → ℕ × W
  pub seconds_until : Bytes → W → Option ℤ
  pub bodies : ErrorBodies

-- `u64::try_from(delta).unwrap_or(0)`.
abbrev pub not_negative : ℤ → ℕ
not_negative (pos n) = n
not_negative (negsuc n) = 0

-- `retry_after`, of the header's text.
unfoldable pub retry_after : {W : Type 0} → World W → W → Option Bytes → Option ℕ
unfolding trim parse_u64
retry_after w now none = none
retry_after w now (some header) =
    let value = trim header in
    elim (parse_u64 value) [
      | some secs ↦ some (secs * 1000000000)
      | none ↦ w.seconds_until value now >>= λ delta. some (not_negative delta * 1000000000)
    ]

unfoldable pub clamp_retry_after : ℕ → ℕ → ℕ
clamp_retry_after delay max_backoff = min delay max_backoff

-- The loop of `read_bounded` over the chunks.
unfoldable pub read_chunks : ℕ → Bytes → List (Result Bytes Transport) → Result Bytes Error
read_chunks limit body [] = ok body
read_chunks limit body (err e ∷ rest) = err (transport e)
read_chunks limit body (ok chunk ∷ rest) =
    let body' = body ++ chunk in
    let whole = read_chunks limit body' rest in
    if ltb limit (length body') then err (limit_exceeded limit (length body')) else whole

-- Whether a length that was declared is above the limit.
abbrev pub declares_more : Option ℕ → ℕ → Bool
declares_more none limit = false
declares_more (some declared) limit = ltb limit declared

abbrev pub declared_length : Option ℕ → ℕ
declared_length none = 0
declared_length (some declared) = declared

unfoldable pub read_bounded : Response → ℕ → Result Bytes Error
unfolding read_chunks
read_bounded resp limit =
    if declares_more resp.content_length limit
    then err (limit_exceeded limit (declared_length resp.content_length))
    else read_chunks limit [] resp.chunks

-- What an attempt comes to: a response, an error that may be retried, or one that ends the loop.
pub data Attempt : Type 0 where
  answered : Response → Attempt
  failed : Error → Attempt
  gave_up : Error → Attempt

-- The error of a response that is not a success, once its body was read.
unfoldable pub refused : ErrorBodies → Response → Option ℕ → Result Bytes Error → Attempt
unfolding from_status
refused json resp delay (ok body) = failed (from_status json resp.code body delay)
refused json resp delay (err e) = gave_up e

-- The client's configuration as far as a request uses it, and whether its credential is a bearer
-- token.
pub record Client : Type 0 where
  pub retry_policy : RetryPolicy
  pub total_timeout : ℕ
  pub max_response_bytes : ℕ
  pub is_bearer : Bool

unfoldable pub clamp : Option ℕ → ℕ → Option ℕ
unfolding clamp_retry_after
clamp none max_backoff = none
clamp (some delay) max_backoff = some (clamp_retry_after delay max_backoff)

-- The part of the loop of `send_with_retry` that sends the request once.
unfoldable pub attempt_once : {W : Type 0} → World W → Client → Template → W → Attempt × W
unfolding read_bounded retry_after
attempt_once w c template state =
    let (outcome, after) = w.send state in
    if not template.cloneable then (gave_up config, state) else elim outcome [
      | err e ↦ (failed (transport e), after)
      | ok resp ↦
          if is_success resp.code
          then (answered resp, after)
          else let delay =
              clamp (retry_after w after resp.retry_after_header) c.retry_policy.max_backoff in
            (refused w.bodies resp delay (read_bounded resp c.max_response_bytes), after)
    ]

-- A bearer request that Redmine answers with a 500.
unfoldable pub bearer_500 : Client → Error → Bool
bearer_500 c (api code errors) = c.is_bearer && code == 500
bearer_500 c _ = false

unfoldable pub can_retry : Client → Template → Error → ℕ → ℕ → ℕ → Bool
unfolding method_is_retryable is_retryable bearer_500
can_retry c template e attempt now deadline =
    method_is_retryable template.method
    && is_retryable e
    && not (bearer_500 c e)
    && ltb attempt c.retry_policy.max_retries
    && ltb now deadline

-- The delay before the next attempt, and the world once it is drawn.
unfoldable pub backoff : {W : Type 0} → World W → Client → Error → ℕ → W → ℕ × W
unfolding backoff_cap
backoff w c (rate_limited (some d)) attempt state = (d, state)
backoff w c _ attempt state =
    let (millis, state') = w.random_range (backoff_cap c.retry_policy attempt) state in
    (millis * 1000000, state')

-- What `send_with_retry` returns, the delays it slept for, and the world after it.
pub record Sent (W : Type 0) : Type 0 where
  pub result : Result Response Error
  pub slept : List ℕ
  pub world : W

-- Adds the delay before it to what the later attempts come to.
abbrev pub slept_before : {W : Type 0} → ℕ → Option (Sent W) → Option (Sent W)
slept_before d none = none
slept_before d (some s) = some (record s { slept = d ∷ s.slept })

-- The loop of `send_with_retry`, on fuel: no result when the fuel runs out.
unfoldable pub retry_loop :
    {W : Type 0} → World W → Client → Template → ℕ → ℕ → ℕ → W → Option (Sent W)
unfolding attempt_once can_retry backoff
retry_loop w c template deadline zero attempt state = none
retry_loop w c template deadline (suc fuel) attempt state =
    let (tried, after) = attempt_once w c template state in
    elim tried [
      | answered resp ↦ some (record { result = ok resp; slept = []; world = after })
      | gave_up e ↦ some (record { result = err e; slept = []; world = after })
      | failed e ↦
          let now = w.now after in
          let (drawn, ready) = backoff w c e attempt after in
          let delay = min drawn (deadline - now) in
          let later = retry_loop w c template deadline fuel (suc attempt) (w.sleep delay ready) in
          if can_retry c template e attempt now deadline
          then slept_before delay later
          else some (record { result = err e; slept = []; world = after })
    ]

-- `send_with_retry`, within an `Instant`'s range, with fuel for one attempt more than the retries.
unfoldable pub send_with_retry : {W : Type 0} → World W → Client → Template → W → Option (Sent W)
unfolding retry_loop
send_with_retry w c template state =
    let deadline = w.now state + c.total_timeout in
    retry_loop w c template deadline (suc c.retry_policy.max_retries) 0 state
