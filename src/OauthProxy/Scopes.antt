-- ===== src/OauthProxy/Scopes.antt =====
-- oauth/scopes.rs, `narrow`: the scopes that a request asks for, among those advertised. The text
-- of the refusal is left out, since no caller of the endpoints reads it.
use ruprogress_mcp.RedmineClient.Model.{scopes}
use ruprogress_mcp.Base.{
  Bool, Bytes, List, Option, [], all, arith, bytes_beq_iff, bytes_eq, contains, filter,
  if◌then◌else◌, none, some, true, ◌&&◌, ◌∷◌, ◌≡◌,
}
use ruprogress_mcp.Std.Unicode.{split_whitespace}

unfoldable pub narrow : List Bytes → Bytes → Option (List Bytes)
narrow full raw =
    let requested = split_whitespace raw in
    if all (λ s. contains full s) requested
    then some (filter (λ s. contains requested s) full)
    else none

all-contains :
    (full requested : List Bytes) (s : Bytes)
    → all (λ x. contains full x) requested ≡ true
    → contains requested s ≡ true
    → contains full s ≡ true
all-contains full [] s h q = cc
all-contains full (x ∷ xs) s h q = ground (arith, bytes_beq_iff x s, all-contains full xs s)

filter-contains :
    (p : Bytes → Bool) (full : List Bytes) (s : Bytes)
    → contains (filter p full) s ≡ p s && contains full s
filter-contains p [] s = ground arith
filter-contains p (x ∷ xs) s = ground (arith, bytes_beq_iff x s, filter-contains p xs s)

-- A request that is granted is narrowed to exactly the scopes that it names, and each of those is
-- advertised.
pub narrow_lem :
    (full : List Bytes) (raw : Bytes) (scopes : List Bytes) (s : Bytes)
    → narrow full raw ≡ some scopes
    → (contains scopes s ≡ contains (split_whitespace raw) s)
      × (contains (split_whitespace raw) s ≡ (contains (split_whitespace raw) s && contains full s))
unfolding narrow
narrow_lem full raw scopes s h = ground (
  arith,
  h,
  filter-contains (λ x. contains (split_whitespace raw) x) full s,
  all-contains full (split_whitespace raw) s,
)
