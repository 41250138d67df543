-- ===== src/RedmineClient/Retry/Bounds.antt =====
-- client.rs: the retry loop ends, and how often and how long it waits.
use ruprogress_mcp.RedmineClient.Retry.{
  Attempt, Client, Response, Sent, Template, World, answered, attempt_once, backoff, backoff_cap,
  can_retry, clamp, clamp_retry_after, failed, gave_up, read_bounded, refused, retry_after,
  retry_loop, send_with_retry, slept_before,
}
use ruprogress_mcp.RedmineClient.Errors.{
  Error, ErrorBodies, api, config, decode, forbidden, foreign_origin, from_status, is_success,
  limit_exceeded, not_found, oauth_error, rate_limited, transport, unauthorized,
}
use ruprogress_mcp.Base.{
  All, Bool, false, Bool-cases, Bytes, Option, Result, [], arith, err, inl, inr, length, min, ap,
  ◌<◌, ◌⊎◌, if◌then◌else◌, Result-cases, nat_eq, ◌==◌, none, ok, refl, some, suc, true, zero, ℕ,
  ◌-◌, ◌*◌, ◌+◌, ◌≡◌, ◌≤◌, ◌∷◌, subst,
}

-- A delay that an error carries is within the bound.
abbrev pub IsClamped : ℕ → Error → Type 0
IsClamped bound (rate_limited (some d)) = d ≤ bound
IsClamped bound _ = Unit

abbrev pub IsClampedAttempt : ℕ → Attempt → Type 0
IsClampedAttempt bound (failed e) = IsClamped bound e
IsClampedAttempt bound _ = Unit

clamp-le : (o : Option ℕ) (bound : ℕ) → IsClamped bound (rate_limited (clamp o bound))
unfolding clamp clamp_retry_after
clamp-le none bound = tt
clamp-le (some d) bound = omega arith

from_status-IsClamped :
    (json : ErrorBodies) (code : ℕ) (body : Bytes) (o : Option ℕ) (bound : ℕ)
    → IsClamped bound (from_status json code body (clamp o bound))
unfolding from_status
from_status-IsClamped json code body o bound = elim (Bool-cases (code == 401)) [
  | inl here ↦ rw (here) tt
  | inr n1 ↦ rw (n1) (elim (Bool-cases (code == 403)) [
    | inl here ↦ rw (here) tt
    | inr n3 ↦ rw (n3) (elim (Bool-cases (code == 404)) [
      | inl here ↦ rw (here) tt
      | inr n4 ↦ rw (n4) (elim (Bool-cases (code == 429)) [
        | inl here ↦ rw (here) (clamp-le o bound)
        | inr other ↦ rw (other) tt
      ])
    ])
  ])
]

refused-IsClamped :
    (json : ErrorBodies) (resp : Response) (o : Option ℕ) (body : Result Bytes Error) (bound : ℕ)
    → IsClampedAttempt bound (refused json resp (clamp o bound) body)
unfolding refused from_status
refused-IsClamped json resp o (ok body) bound = from_status-IsClamped json resp.code body o bound
refused-IsClamped json resp o (err e) bound = tt

pub Attempt-cases :
    (a : Attempt)
    → ((resp : Response) × (a ≡ answered resp))
      ⊎ (((e : Error) × (a ≡ gave_up e)) ⊎ ((e : Error) × (a ≡ failed e)))
Attempt-cases (answered resp) = inl (resp, refl)
Attempt-cases (gave_up e) = inr (inl (e, refl))
Attempt-cases (failed e) = inr (inr (e, refl))

pub can_retry-lt :
    (c : Client) (template : Template) (e : Error) (attempt now deadline : ℕ)
    → can_retry c template e attempt now deadline ≡ true
    → attempt < c.retry_policy.max_retries
unfolding can_retry
can_retry-lt c template e attempt now deadline h = ground (arith, h)

module _ {W : Type 0} (w : World W) (c : Client) (template : Template) where
  attempt_once-IsClamped :
      (state : W) → IsClampedAttempt c.retry_policy.max_backoff (attempt_once w c template state).0
  unfolding attempt_once
  attempt_once-IsClamped state = elim (Bool-cases template.cloneable) [
    | inr fixed ↦ rw (fixed) tt
    | inl cloned ↦ rw (cloned) (elim (Result-cases (w.send state).0) [
      | inr (e, lost) ↦ rw (lost) tt
      | inl (resp, came) ↦ rw (came) (elim (Bool-cases (is_success resp.code)) [
        | inl fine ↦ rw (fine) tt
        | inr bad ↦ rw (bad) (
            refused-IsClamped w.bodies resp (retry_after w (w.send state).1 resp.retry_after_header)
              (read_bounded resp c.max_response_bytes) c.retry_policy.max_backoff)
      ])
    ])
  ]

  -- A loop that ends, within the retries and the delays that are left.
  abbrev IsBounded : ℕ → Option (Sent W) → Type 0
  IsBounded attempt sent =
      (s : Sent W) × (sent ≡ some s)
      × (length s.slept + attempt ≤ c.retry_policy.max_retries)
      × All (λ d. d ≤ c.retry_policy.max_backoff) s.slept

  module _ (within : (n : ℕ) (s : W) → (w.random_range n s).0 ≤ n) where
    drawn-le :
        (attempt : ℕ) (state : W)
        → (w.random_range (backoff_cap c.retry_policy attempt) state).0 * 1000000
          ≤ c.retry_policy.max_backoff
    unfolding backoff_cap
    drawn-le attempt state = omega (arith, within (backoff_cap c.retry_policy attempt) state)

    -- The delay drawn for a retry.
    backoff-le :
        (e : Error) (attempt : ℕ) (state : W)
        → IsClamped c.retry_policy.max_backoff e
        → (backoff w c e attempt state).0 ≤ c.retry_policy.max_backoff
    unfolding backoff
    backoff-le (rate_limited (some d)) attempt state h = h
    backoff-le (rate_limited none) attempt state h = drawn-le attempt state
    backoff-le (transport e) attempt state h = drawn-le attempt state
    backoff-le (api code errors) attempt state h = drawn-le attempt state
    backoff-le unauthorized attempt state h = drawn-le attempt state
    backoff-le forbidden attempt state h = drawn-le attempt state
    backoff-le not_found attempt state h = drawn-le attempt state
    backoff-le (decode text) attempt state h = drawn-le attempt state
    backoff-le config attempt state h = drawn-le attempt state
    backoff-le (limit_exceeded limit actual) attempt state h = drawn-le attempt state
    backoff-le (oauth_error code e d) attempt state h = drawn-le attempt state
    backoff-le (foreign_origin o) attempt state h = drawn-le attempt state

    slept_before-IsBounded :
        (d attempt : ℕ) (later : Option (Sent W))
        → d ≤ c.retry_policy.max_backoff
        → IsBounded (suc attempt) later
        → IsBounded attempt (slept_before d later)
    slept_before-IsBounded d attempt later small (s, same, few, all_small) = (
      record s { slept = d ∷ s.slept },
      ap (slept_before d) same,
      omega (arith, few),
      (small, all_small),
    )

    -- A retry that is allowed waits and then goes on; one that is not ends the loop.
    retried-IsBounded :
        (deadline attempt now : ℕ) (e : Error) (drawn : ℕ) (later : Option (Sent W)) (stop : Sent W)
        → stop.slept ≡ []
        → attempt ≤ c.retry_policy.max_retries
        → drawn ≤ c.retry_policy.max_backoff
        → (attempt < c.retry_policy.max_retries → IsBounded (suc attempt) later)
        → IsBounded attempt (
            if can_retry c template e attempt now deadline
            then slept_before (min drawn (deadline - now)) later
            else some stop)
    retried-IsBounded deadline attempt now e drawn later stop awake low small more =
        elim (Bool-cases (can_retry c template e attempt now deadline)) [
          | inr no_more ↦ rw (no_more) (stop, refl, rw (awake) (omega (arith, low)), rw (awake) tt)
          | inl again ↦ rw (again) (
              slept_before-IsBounded (min drawn (deadline - now)) attempt later
                (omega (arith, small))
                (more (can_retry-lt c template e attempt now deadline again)))
        ]

    retry_loop-IsBounded :
        (deadline fuel attempt : ℕ) (state : W)
        → attempt ≤ c.retry_policy.max_retries
        → c.retry_policy.max_retries < attempt + fuel
        → IsBounded attempt (retry_loop w c template deadline fuel attempt state)
    unfolding retry_loop
    retry_loop-IsBounded deadline zero attempt state low enough =
        absurd (omega (arith, low, enough))
    retry_loop-IsBounded deadline (suc fuel) attempt state low enough =
        let after = (attempt_once w c template state).1 in
        elim (Attempt-cases (attempt_once w c template state).0) [
          | inl (resp, same) ↦ rw (retry_loop, same) (_, refl, omega (arith, low), tt)
          | inr (inl (e, same)) ↦ rw (retry_loop, same) (_, refl, omega (arith, low), tt)
          | inr (inr (e, same)) ↦
              rw (retry_loop, same)
                (retried-IsBounded deadline attempt (w.now after) e (backoff w c e attempt after).0
                  _ _ refl low
                  (backoff-le e attempt after (
                    subst (IsClampedAttempt c.retry_policy.max_backoff) same
                      (attempt_once-IsClamped state)))
                  (λ more.
                    retry_loop-IsBounded deadline fuel (suc attempt) _ (omega (arith, more))
                      (omega (arith, enough))))
        ]

-- A counter of the requests that a world has sent: each send adds one, and nothing else does.
pub record IsCounter {W : Type 0} (w : World W) (sends : W → ℕ) : Type 0 where
  pub counts : (s : W) → sends (w.send s).1 ≡ suc (sends s)
  pub asleep : (d : ℕ) (s : W) → sends (w.sleep d s) ≡ sends s
  pub drawing : (n : ℕ) (s : W) → sends (w.random_range n s).1 ≡ sends s

module _ {W : Type 0} (w : World W) (c : Client) (template : Template) (sends : W → ℕ)
    (k : IsCounter w sends) where
  attempt_once-counts : (state : W) → sends (attempt_once w c template state).1 ≤ suc (sends state)
  unfolding attempt_once
  attempt_once-counts state = elim (Bool-cases template.cloneable) [
    | inr fixed ↦ rw (fixed) (omega arith)
    | inl cloned ↦ rw (cloned) (elim (Result-cases (w.send state).0) [
      | inr (e, lost) ↦ rw (lost) (omega (arith, k.counts state))
      | inl (resp, came) ↦ rw (came) (elim (Bool-cases (is_success resp.code)) [
        | inl fine ↦ rw (fine) (omega (arith, k.counts state))
        | inr bad ↦ rw (bad) (omega (arith, k.counts state))
      ])
    ])
  ]

  backoff-counts :
      (e : Error) (attempt : ℕ) (state : W) → sends (backoff w c e attempt state).1 ≡ sends state
  unfolding backoff
  backoff-counts (rate_limited (some d)) attempt state = refl
  backoff-counts (rate_limited none) attempt state = k.drawing _ state
  backoff-counts (transport e) attempt state = k.drawing _ state
  backoff-counts (api code errors) attempt state = k.drawing _ state
  backoff-counts unauthorized attempt state = k.drawing _ state
  backoff-counts forbidden attempt state = k.drawing _ state
  backoff-counts not_found attempt state = k.drawing _ state
  backoff-counts (decode text) attempt state = k.drawing _ state
  backoff-counts config attempt state = k.drawing _ state
  backoff-counts (limit_exceeded limit actual) attempt state = k.drawing _ state
  backoff-counts (oauth_error code e d) attempt state = k.drawing _ state
  backoff-counts (foreign_origin o) attempt state = k.drawing _ state

  -- One send at most for each wait, and one.
  abbrev IsCounted : ℕ → Option (Sent W) → Type 0
  IsCounted before none = Unit
  IsCounted before (some s) = sends s.world ≤ before + suc (length s.slept)

  slept_before-IsCounted :
      (d before : ℕ) (later : Option (Sent W))
      → IsCounted (suc before) later
      → IsCounted before (slept_before d later)
  slept_before-IsCounted d before none h = tt
  slept_before-IsCounted d before (some s) h = omega (arith, h)

  retried-IsCounted :
      (again : Bool) (d before : ℕ) (later : Option (Sent W)) (e : Error) (world : W)
      → sends world ≤ suc before
      → IsCounted (suc before) later
      → IsCounted before (
          if again
          then slept_before d later
          else some (record { result = err e; slept = []; world = world }))
  retried-IsCounted true d before later e world h counted =
      slept_before-IsCounted d before later counted
  retried-IsCounted false d before later e world h counted = omega (arith, h)

  IsCounted-later :
      (a b : ℕ) (later : Option (Sent W)) → a ≤ b → IsCounted a later → IsCounted b later
  IsCounted-later a b none h counted = tt
  IsCounted-later a b (some s) h counted = omega (arith, h, counted)

  retry_loop-IsCounted :
      (deadline fuel attempt : ℕ) (state : W)
      → IsCounted (sends state) (retry_loop w c template deadline fuel attempt state)
  unfolding retry_loop
  retry_loop-IsCounted deadline zero attempt state = tt
  retry_loop-IsCounted deadline (suc fuel) attempt state =
      let after = (attempt_once w c template state).1 in
      let once = attempt_once-counts state in
      elim (Attempt-cases (attempt_once w c template state).0) [
        | inl (resp, same) ↦ rw (retry_loop, same) (omega (arith, once))
        | inr (inl (e, same)) ↦ rw (retry_loop, same) (omega (arith, once))
        | inr (inr (e, same)) ↦
            let ready = (backoff w c e attempt after).1 in
            let delay = min (backoff w c e attempt after).0 (deadline - w.now after) in
            let resumed = w.sleep delay ready in
            rw (retry_loop, same)
              (retried-IsCounted _ delay (sends state) _ e after once (
                IsCounted-later (sends resumed) (suc (sends state)) _
                  (omega (arith, once, k.asleep delay ready, backoff-counts e attempt after))
                  (retry_loop-IsCounted deadline fuel (suc attempt) resumed)))
      ]

-- A request ends, whatever the network does: it returns a response or an error after at most
-- `max_retries` waits and at most one send more than it waited, however sends are counted, and no
-- wait is longer than `max_backoff`, not even one that a `Retry-After` asks for. A draw from a
-- range is never above it.
pub send_with_retry-ends :
    {W : Type 0} (w : World W) (c : Client) (template : Template) (state : W) (sends : W → ℕ)
    → IsCounter w sends
    → ((n : ℕ) (s : W) → (w.random_range n s).0 ≤ n)
    → (s : Sent W) × (send_with_retry w c template state ≡ some s)
      × (length s.slept ≤ c.retry_policy.max_retries)
      × (sends s.world ≤ sends state + suc (length s.slept))
      × All (λ d. d ≤ c.retry_policy.max_backoff) s.slept
unfolding send_with_retry
send_with_retry-ends w c template state sends k within =
    let deadline = w.now state + c.total_timeout in
    let (s, same, few, small) =
      retry_loop-IsBounded w c template within deadline (suc c.retry_policy.max_retries) 0 state
        (omega arith) (omega arith) in
    let counted = subst (IsCounted w c template sends k (sends state)) same (
      retry_loop-IsCounted w c template sends k deadline (suc c.retry_policy.max_retries) 0
        state) in
    (s, same, omega (arith, few), counted, small)
