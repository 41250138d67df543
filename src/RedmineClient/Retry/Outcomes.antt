-- ===== src/RedmineClient/Retry/Outcomes.antt =====
-- client.rs: what a request returns, which requests are sent once, and what a bounded read keeps.
use ruprogress_mcp.RedmineClient.Retry.Bounds.{Attempt-cases}
use ruprogress_mcp.RedmineClient.Retry.{
  Attempt, Client, Response, Sent, Template, World, answered, attempt_once, can_retry,
  declares_more, Method, delete, get, head, post, put, method_is_retryable, read_bounded,
  read_chunks, refused, retry_loop, send_with_retry, slept_before,
}
use ruprogress_mcp.RedmineClient.Errors.{Error, ErrorBodies, Transport, is_success}
use ruprogress_mcp.Base.{
  Bool, Bool-cases, Bytes, List, Option, Result, Result-cases, [], arith, err, false, if◌then◌else◌,
  inl, inr, length, length-append, none, ok, refl, some, subst, suc, sym, true, zero, ℕ, ◌++◌, ◌+◌,
  ◌↔◌, ◌≡◌, ◌≢◌, ◌≤◌, ◌∷◌, ap, ◌∙◌,
}
use mathlib.Core.List.{append-nil, append_assoc}

abbrev pub concat : List Bytes → Bytes
concat [] = []
concat (c ∷ cs) = c ++ concat cs

-- The chunks of a body that came whole.
abbrev pub all_ok : List Bytes → List (Result Bytes Transport)
all_ok [] = []
all_ok (c ∷ cs) = ok c ∷ all_ok cs

-- What the chunks that are left add to a body that is within the limit.
abbrev IsRead : ℕ → Bytes → List (Result Bytes Transport) → Bytes → Type 0
IsRead limit body chunks whole =
    (cs : List Bytes) × (chunks ≡ all_ok cs) × (whole ≡ body ++ concat cs) × (length whole ≤ limit)

read_chunks_sound :
    (limit : ℕ) (body : Bytes) (chunks : List (Result Bytes Transport)) (whole : Bytes)
    → length body ≤ limit
    → read_chunks limit body chunks ≡ ok whole
    → IsRead limit body chunks whole
unfolding read_chunks
read_chunks_sound limit body [] whole small h =
    ([], refl, ground (arith, h, append-nil body), ground (arith, h, small))
read_chunks_sound limit body (err e ∷ rest) whole small h = ground (arith, h)
read_chunks_sound limit body (ok chunk ∷ rest) whole small h =
    let (cs, came, same, fits) =
      read_chunks_sound limit (body ++ chunk) rest whole (ground (arith, h)) (ground (arith, h)) in
    (chunk ∷ cs, ap (λ x. ok chunk ∷ x) came, same ∙ append_assoc body chunk (concat cs), fits)

read_chunks_complete :
    (limit : ℕ) (body : Bytes) (cs : List Bytes)
    → length (body ++ concat cs) ≤ limit
    → read_chunks limit body (all_ok cs) ≡ ok (body ++ concat cs)
unfolding read_chunks
read_chunks_complete limit body [] fits = ap ok (sym (append-nil body))
read_chunks_complete limit body (c ∷ cs) fits =
    let shifted = append_assoc body c (concat cs) in
    ground (
      arith,
      shifted,
      read_chunks_complete limit (body ++ c) cs,
      length-append (body ++ c) (concat cs),
      fits,
    )

-- A response is read exactly when the length that it declares, if any, and the length of its body
-- are within the limit and every chunk of it came; then the body is the chunks in order, however
-- the bytes were cut into them.
pub read_bounded-ok_iff :
    (resp : Response) (limit : ℕ) (body : Bytes)
    → (read_bounded resp limit ≡ ok body) ↔ (
        (declares_more resp.content_length limit ≡ false)
        × ((cs : List Bytes) × (resp.chunks ≡ all_ok cs)
            × (body ≡ concat cs)
            × (length body ≤ limit)))
unfolding read_bounded
read_bounded-ok_iff resp limit body = elim (Bool-cases (declares_more resp.content_length limit)) [
  | inl more ↦ ground (arith, more)
  | inr fine ↦ (
    λ h.
        (fine, read_chunks_sound limit [] resp.chunks body (omega arith) (ground (arith, h, fine))),
    λ e. ground (
      arith,
      fine,
      e.1.1,
      e.1.2,
      e.1.3,
      read_chunks_complete limit [] e.1.0,
      ap (read_chunks limit []),
    ),
  )
]

-- What a result must be when it is a response.
abbrev IsSuccess : Result Response Error → Type 0
IsSuccess (ok resp) = is_success resp.code ≡ true
IsSuccess (err e) = Unit

abbrev IsSuccessAttempt : Attempt → Type 0
IsSuccessAttempt (answered resp) = is_success resp.code ≡ true
IsSuccessAttempt _ = Unit

refused-IsSuccess :
    (json : ErrorBodies) (resp : Response) (delay : Option ℕ) (body : Result Bytes Error)
    → IsSuccessAttempt (refused json resp delay body)
unfolding refused
refused-IsSuccess json resp delay (ok body) = tt
refused-IsSuccess json resp delay (err e) = tt

module _ {W : Type 0} (w : World W) (c : Client) (template : Template) where
  attempt_once-IsSuccess : (state : W) → IsSuccessAttempt (attempt_once w c template state).0
  unfolding attempt_once
  attempt_once-IsSuccess state = elim (Bool-cases template.cloneable) [
    | inr fixed ↦ rw (fixed) tt
    | inl cloned ↦ rw (cloned) (elim (Result-cases (w.send state).0) [
      | inr (e, lost) ↦ rw (lost) tt
      | inl (resp, came) ↦ rw (came) (elim (Bool-cases (is_success resp.code)) [
        | inl fine ↦ rw (fine) fine
        | inr bad ↦ rw (bad) (refused-IsSuccess w.bodies resp _ _)
      ])
    ])
  ]

  abbrev IsSuccessSent : Option (Sent W) → Type 0
  IsSuccessSent none = Unit
  IsSuccessSent (some s) = IsSuccess s.result

  slept_before-IsSuccess :
      (d : ℕ) (later : Option (Sent W)) → IsSuccessSent later → IsSuccessSent (slept_before d later)
  slept_before-IsSuccess d none h = tt
  slept_before-IsSuccess d (some s) h = h

  retried-IsSuccess :
      (again : Bool) (d : ℕ) (later : Option (Sent W)) (e : Error) (world : W)
      → IsSuccessSent later
      → IsSuccessSent (
          if again
          then slept_before d later
          else some (record { result = err e; slept = []; world = world }))
  retried-IsSuccess true d later e world h = slept_before-IsSuccess d later h
  retried-IsSuccess false d later e world h = tt

  retry_loop-IsSuccess :
      (deadline fuel attempt : ℕ) (state : W)
      → IsSuccessSent (retry_loop w c template deadline fuel attempt state)
  unfolding retry_loop
  retry_loop-IsSuccess deadline zero attempt state = tt
  retry_loop-IsSuccess deadline (suc fuel) attempt state =
      elim (Attempt-cases (attempt_once w c template state).0) [
        | inl (resp, same) ↦
            rw (retry_loop, same) (subst IsSuccessAttempt same (attempt_once-IsSuccess state))
        | inr (inl (e, same)) ↦ rw (retry_loop, same) tt
        | inr (inr (e, same)) ↦
            rw (retry_loop, same)
              (retried-IsSuccess _ _ _ e _ (retry_loop-IsSuccess deadline fuel (suc attempt) _))
      ]

-- A response that a request returns has a status of success, after however many attempts.
pub send_with_retry-success :
    {W : Type 0} (w : World W) (c : Client) (template : Template) (state : W) (s : Sent W)
    (resp : Response)
    → send_with_retry w c template state ≡ some s
    → s.result ≡ ok resp
    → is_success resp.code ≡ true
unfolding send_with_retry
send_with_retry-success w c template state s resp sent same = subst IsSuccess same (
    subst (IsSuccessSent w c template) sent (
      retry_loop-IsSuccess w c template (w.now state + c.total_timeout)
        (suc c.retry_policy.max_retries) 0 state))

attempt_once-world :
    {W : Type 0} (w : World W) (c : Client) (template : Template) (state : W)
    → template.cloneable ≡ true
    → (attempt_once w c template state).1 ≡ (w.send state).1
unfolding attempt_once
attempt_once-world w c template state cloned = rw (cloned) (elim (Result-cases (w.send state).0) [
  | inr (e, lost) ↦ rw (lost) refl
  | inl (resp, came) ↦ rw (came) (elim (Bool-cases (is_success resp.code)) [
    | inl fine ↦ rw (fine) refl
    | inr bad ↦ rw (bad) refl
  ])
])

attempt_once-unsent :
    {W : Type 0} (w : World W) (c : Client) (template : Template) (state : W)
    → template.cloneable ≡ false
    → (attempt_once w c template state).1 ≡ state
unfolding attempt_once
attempt_once-unsent w c template state fixed = rw (fixed) refl

-- The world after one send, or the world as it was when the request cannot be sent at all.
abbrev pub sent_once : {W : Type 0} → World W → Template → W → W
sent_once w template state = if template.cloneable then (w.send state).1 else state

attempt_once-sent :
    {W : Type 0} (w : World W) (c : Client) (template : Template) (state : W)
    → (attempt_once w c template state).1 ≡ sent_once w template state
attempt_once-sent w c template state = elim (Bool-cases template.cloneable) [
  | inl cloned ↦
      attempt_once-world w c template state cloned
      ∙ sym (ap (λ b. if b then (w.send state).1 else state) cloned)
  | inr fixed ↦
      attempt_once-unsent w c template state fixed
      ∙ sym (ap (λ b. if b then (w.send state).1 else state) fixed)
]

method_is_retryable-no : (m : Method) → m ≢ get → m ≢ head → method_is_retryable m ≡ false
unfolding method_is_retryable
method_is_retryable-no get g h = absurd (g refl)
method_is_retryable-no head g h = absurd (h refl)
method_is_retryable-no post g h = refl
method_is_retryable-no put g h = refl
method_is_retryable-no delete g h = refl

-- A request that is neither a GET nor a HEAD is sent at most once, whatever comes of it: there is
-- no wait, and the world after it is the one after that send, or the one before when the body
-- cannot be cloned, so that nothing is sent.
pub send_with_retry-once :
    {W : Type 0} (w : World W) (c : Client) (template : Template) (state : W)
    → template.method ≢ get
    → template.method ≢ head
    → (s : Sent W) × (send_with_retry w c template state ≡ some s)
      × (s.slept ≡ [])
      × (s.world ≡ sent_once w template state)
unfolding send_with_retry retry_loop can_retry
send_with_retry-once w c template state not_get not_head =
    let unsafe = method_is_retryable-no template.method not_get not_head in
    let after = attempt_once-sent w c template state in
    elim (Attempt-cases (attempt_once w c template state).0) [
      | inl (resp, same) ↦ rw (send_with_retry, retry_loop, same) (_, refl, refl, after)
      | inr (inl (e, same)) ↦ rw (send_with_retry, retry_loop, same) (_, refl, refl, after)
      | inr (inr (e, same)) ↦
          rw (send_with_retry, retry_loop, same, can_retry, unsafe) (_, refl, refl, after)
    ]
