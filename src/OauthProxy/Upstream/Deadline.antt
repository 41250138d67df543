-- ===== src/OauthProxy/Upstream/Deadline.antt =====
-- Sessions before and after their deadline.
use ruprogress_mcp.Std.Map.{Distinct, get-insert, get-retain, keep, len, retain}
use ruprogress_mcp.Std.Clock.{Instant, Reads}
use ruprogress_mcp.OauthProxy.Crypto.{hex_encode}
use ruprogress_mcp.OauthProxy.Capacity.{sweep_and_check_capacity}
use ruprogress_mcp.Base.{
  ok, err, ==_refl, Bytes, Option, Option-cases, arith, bytes_eq, err, if◌then◌else◌, inl, inr,
  length, ltb, none, some, ◌+◌, ◌<◌, ◌==◌, ◌≡◌, ◌≤◌, ◌⊎◌, [], refl, ◌∷◌,
}
use ruprogress_mcp.Std.Map
use ruprogress_mcp.OauthProxy.Upstream.{
  insert, UpstreamStore, UpstreamTokenSet, access_token, granted_scopes, refresh_token, replace,
  session_deadline, sweep_expired,
}

-- Before its deadline a session answers with what it holds, and from then on with nothing.
pub reads_before_deadline :
    (store : UpstreamStore) (id : Bytes) (set : UpstreamTokenSet) (deadline now : Instant)
    → Map.get id store ≡ some (set, deadline)
    → (access_token store id now ≡ (if ltb now deadline then some set.access else none))
      × (refresh_token store id now ≡ (if ltb now deadline then set.refresh else none))
      × (granted_scopes store id now ≡ (if ltb now deadline then some set.granted_scopes else none))
unfolding access_token refresh_token granted_scopes
reads_before_deadline store id set deadline now h = ground arith

-- A stored session answers under its id, until the refresh clock runs out if it can be refreshed,
-- and else until its access token expires.
pub access_token-insert :
    (store : UpstreamStore) (set : UpstreamTokenSet) (rng : Option Bytes) (r : Reads)
    (now : Instant) (id : Bytes) (later : Instant)
    → (insert store set rng r now).1 ≡ some id
    → later < session_deadline r set
    → access_token (insert store set rng r now).0 id later ≡ some set.access
unfolding access_token insert
access_token-insert store set rng r now id later h lt = elim (Option-cases rng) [
  | inl failed ↦ absurd (ground (arith, h, failed))
  | inr (bytes, drawn) ↦ ground (
    arith,
    get-insert (hex_encode bytes) (hex_encode bytes) (set, session_deadline r set)
        (sweep_and_check_capacity now store (hex_encode bytes)).0,
    ==_refl (hex_encode bytes),
  )
]

module _ (store : UpstreamStore) (id : Bytes) (set : UpstreamTokenSet) (now : Instant)
    (r : Reads) where
  -- A refresh replaces the tokens of a session that is there and before its deadline, under the
  -- same id and with a new deadline, and leaves every other session alone.
  pub get-replace_ok :
      (old : UpstreamTokenSet) (deadline : Instant) (j : Bytes)
      → Map.get id store ≡ some (old, deadline)
      → now < deadline
      → ((replace store id set now r).1 ≡ ok tt)
        × (Map.get j (replace store id set now r).0
            ≡ (if id == j then some (set, session_deadline r set) else Map.get j store))
  unfolding replace
  get-replace_ok old deadline j h lt =
      ground (arith, get-insert j id (set, session_deadline r set) store)

  -- A session that was removed, or whose deadline has passed, is not resurrected: the store stays
  -- as it was and the new tokens are handed back.
  pub replace_lost :
      (Map.get id store ≡ none)
        ⊎ ((e : UpstreamTokenSet × Instant) × (Map.get id store ≡ some e) × (e.1 ≤ now))
      → ((replace store id set now r).1 ≡ err set) × ((replace store id set now r).0 ≡ store)
  unfolding replace
  replace_lost (inl gone) = ground arith
  replace_lost (inr (e, found, late)) = ground arith

partition :
    (store : UpstreamStore) (now : Instant)
    → len (sweep_expired store now).0 + length (sweep_expired store now).1 ≡ len store
unfolding sweep_expired retain
partition [] now = refl
partition (e ∷ store) now = ground (arith, partition store now)

-- A sweep splits the store: what it keeps and what it returns are as many as there were, and a
-- session is kept exactly if its deadline lies ahead.
pub sweep_expired_lem :
    (store : UpstreamStore) (now : Instant) (id : Bytes)
    → Distinct store
    → (len (sweep_expired store now).0 + length (sweep_expired store now).1 ≡ len store)
      × (Map.get id (sweep_expired store now).0 ≡ keep (λ _ e. ltb now e.1) id (Map.get id store))
unfolding sweep_expired
sweep_expired_lem store now id d = (partition store now, get-retain (λ _ e. ltb now e.1) id store d)
