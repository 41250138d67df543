-- ===== src/Tests/Client.antt =====
-- The Redmine client against small servers.
use ruprogress_mcp.RedmineClient.Errors.{Error, rate_limited}
use ruprogress_mcp.RedmineClient.Retry.{
  Client, Response, Sent, Template, World, declares_more, delete, get, read_bounded, retry_loop,
  send_with_retry,
}
use ruprogress_mcp.RedmineClient.Retry.Bounds.{IsCounter, send_with_retry-ends}
use ruprogress_mcp.RedmineClient.Retry.Outcomes.{
  all_ok, concat, read_bounded-ok_iff, send_with_retry-once,
}
use ruprogress_mcp.RedmineClient.Paging.{Ask, Envelope, Limits, Page, fetch_all}
use ruprogress_mcp.RedmineClient.Paging.Honest.{IsPrefix, drop, fetch_all-IsPrefix, slice}
use ruprogress_mcp.RedmineClient.Paging.Walk.{fetch_all-ends}
use ruprogress_mcp.Tools.Pagination.{from_page}
use ruprogress_mcp.Tools.Pagination.Pages.{fetch_all-from_page}
use ruprogress_mcp.Base.{
  All, Bytes, List, Option, Result, [], arith, bytes_eq, codes, err, false, is_empty, length,
  length-take, ltb, min, none, not, ok, refl, some, suc, true, ℕ, ◌+◌, ◌-◌, ◌<◌, ◌↔◌, ◌∷◌, ◌≡◌, ◌≤◌,
}

-- A server whose clock is the world, and that limits the rate with a long delay.
abbrev busy : Response
busy = record {
  code = 429;
  content_length = none;
  retry_after_header = some (codes "86400");
  chunks = [];
}

abbrev world : World ℕ
world = record {
  send = λ t. (ok busy, suc t);
  now = λ t. t;
  sleep = λ d t. d + t;
  random_range = λ n t. (n, t);
  seconds_until = λ text t. none;
  bodies = record { error_body = λ b. none; oauth_error_body = λ b. none };
}

abbrev redmine : Client
redmine = record {
  retry_policy = record { max_retries = 2; base = 200000000; max_backoff = 5000000000 };
  total_timeout = 30000000000;
  max_response_bytes = 100;
  is_bearer = false;
}

abbrev a_get : Template
a_get = record { method = get; cloneable = true }

abbrev a_delete : Template
a_delete = record { method = delete; cloneable = true }

-- The server's world with the number of requests beside it.
abbrev counting : World (ℕ × ℕ)
counting = record {
  send = λ t. (ok busy, (suc t.0, suc t.1));
  now = λ t. t.0;
  sleep = λ d t. (d + t.0, t.1);
  random_range = λ n t. (n, t);
  seconds_until = λ text t. none;
  bodies = record { error_body = λ b. none; oauth_error_body = λ b. none };
}

counting-IsCounter : IsCounter counting (λ t. t.1)
counting-IsCounter = record { counts = λ s. refl; asleep = λ d s. refl; drawing = λ n s. refl }

send_with_retry-ends_example :
    (s : Sent (ℕ × ℕ)) × (send_with_retry counting redmine a_get (0, 0) ≡ some s)
    × (length s.slept ≤ 2)
    × (s.world.1 ≤ 0 + suc (length s.slept))
    × All (λ d. d ≤ 5000000000) s.slept
send_with_retry-ends_example =
    send_with_retry-ends counting redmine a_get (0, 0) (λ t. t.1) counting-IsCounter
      (λ n s. omega arith)

-- Both retries wait for as long as they may, and a day is not waited for.
waits :
    send_with_retry world redmine a_get 0
    ≡ some (record {
      result = err (rate_limited (some 5000000000));
      slept = 5000000000 ∷ 5000000000 ∷ [];
      world = 10000000003;
    })
unfolding send_with_retry retry_loop ruprogress_mcp.RedmineClient.Retry.refused
    ruprogress_mcp.RedmineClient.Retry.clamp ruprogress_mcp.Base.bytes_beq
waits = refl

send_with_retry-once_example :
    (s : Sent ℕ) × (send_with_retry world redmine a_delete 0 ≡ some s)
    × (s.slept ≡ [])
    × (s.world ≡ 1)
send_with_retry-once_example =
    send_with_retry-once world redmine a_delete 0 (λ h. ground (arith, h)) (λ h. ground (arith, h))

abbrev two_chunks : Response
two_chunks = record {
  code = 200;
  content_length = none;
  retry_after_header = none;
  chunks = ok (1 ∷ 2 ∷ []) ∷ ok (3 ∷ []) ∷ [];
}

read_bounded-ok_iff_example : (read_bounded two_chunks 3 ≡ ok (1 ∷ 2 ∷ 3 ∷ [])) ↔ (
    (declares_more none 3 ≡ false)
    × ((cs : List Bytes) × (two_chunks.chunks ≡ all_ok cs)
        × (1 ∷ 2 ∷ 3 ∷ [] ≡ concat cs)
        × (3 ≤ 3)))
read_bounded-ok_iff_example = read_bounded-ok_iff two_chunks 3 (1 ∷ 2 ∷ 3 ∷ [])

-- A server of five items that gives out two at most.
abbrev five : List ℕ
five = 10 ∷ 11 ∷ 12 ∷ 13 ∷ 14 ∷ []

abbrev honest : Ask ℕ ℕ
honest n at state = (ok (slice five 2 n at), suc state)

abbrev limits : Limits
limits = record { page_size = 100; max_pages = 2; max_items = 2000; max_response_bytes = 100 }

-- The answers hold no more than what is asked for.
honest_small : (n at : ℕ) → length (slice five 2 n at).env_items ≤ n
honest_small n at = omega (arith, length-take (min n 2) (drop at five))

honest_answers :
    (n at : ℕ) (s : ℕ) (env : Envelope ℕ) → (honest n at s).0 ≡ ok env → length env.env_items ≤ n
honest_answers n at s env came = ground (arith, honest_small n at, came)

fetch_all-ends_example :
    (r : Result (Page ℕ) Error) × (after : ℕ) × (fetch_all honest limits 0 ≡ some (r, after))
    × (after ≤ 0 + limits.max_pages)
fetch_all-ends_example = fetch_all-ends honest limits 0 (λ n. n) (λ n at s. refl)

fetch_all-IsPrefix_example :
    (page : Page ℕ) × (after : ℕ) × (fetch_all honest limits 0 ≡ some (ok page, after))
    × IsPrefix five limits (min 100 2) page
fetch_all-IsPrefix_example =
    fetch_all-IsPrefix five limits 2 honest 0 (omega arith) (omega arith) (omega arith)
      (λ n at s. refl)

fetch_all-from_page_example :
    (page : Page ℕ) × (after : ℕ) × (fetch_all honest limits 0 ≡ some (ok page, after))
    × ((from_page page).offset ≡ length page.items)
    × ((from_page page).has_previous ≡ not (is_empty page.items))
    × ((from_page page).has_next ≡ ltb (length page.items + length page.items) 5)
fetch_all-from_page_example =
    fetch_all-from_page five limits 2 honest 0 (omega arith) (omega arith) (omega arith)
      (λ n at s. refl)
