-- ===== src/OauthProxy/Upstream.antt =====
-- store.rs, `UpstreamStore`: the Redmine tokens held on the users' behalf.
pub mod Deadline
use ruprogress_mcp.Std.Map.{HashMap, retain, take_entry}
use ruprogress_mcp.Std.Clock.{Duration, Instant, Reads, from_hours}
use ruprogress_mcp.OauthProxy.Crypto.{hex_encode}
use ruprogress_mcp.OauthProxy.Capacity.{expires_after, sweep_and_check_capacity}
use ruprogress_mcp.Base.{
  Bytes, List, Option, Result, err, filter, if◌then◌else◌, is_some, leb, length, ltb, map, none, ok,
  some, ℕ, ◌>>=◌, bytes_eq, nat_eq,
}
use ruprogress_mcp.Std.Map

pub record UpstreamTokenSet : Type 0 where
  pub access : Bytes
  pub refresh : Option Bytes
  pub granted_scopes : List Bytes
  pub expires_at : Instant

abbrev pub refresh_ttl : Duration
refresh_ttl = from_hours 720

abbrev pub UpstreamStore : Type 0
UpstreamStore = HashMap Bytes (UpstreamTokenSet × Instant)

-- A session with a refresh token outlives its access token.
unfoldable pub session_deadline : Reads → UpstreamTokenSet → Instant
session_deadline r set = if is_some set.refresh then expires_after r refresh_ttl else set.expires_at

-- `r` is read for the deadline, `now` by the sweep.
unfoldable pub insert :
    UpstreamStore → UpstreamTokenSet → Option Bytes → Reads → Instant → UpstreamStore × Option Bytes
unfolding session_deadline hex_encode
insert store set rng r now = elim rng [
  | none ↦ (store, none)
  | some bytes ↦
      let id = hex_encode bytes in
      let (inner, has_room) = sweep_and_check_capacity now store id in
      if has_room
      then (Map.insert id (set, session_deadline r set) inner, some id)
      else (inner, none)
]

-- The session as long as its deadline has not passed.
unfoldable pub access_token : UpstreamStore → Bytes → Instant → Option Bytes
access_token store id now = do e ← Map.get id store; if ltb now e.1 then some e.0.access else none

unfoldable pub refresh_token : UpstreamStore → Bytes → Instant → Option Bytes
refresh_token store id now = do e ← Map.get id store; if leb e.1 now then none else e.0.refresh

unfoldable pub granted_scopes : UpstreamStore → Bytes → Instant → Option (List Bytes)
granted_scopes store id now = do
  e ← Map.get id store
  if ltb now e.1 then some e.0.granted_scopes else none

unfoldable pub take : UpstreamStore → Bytes → UpstreamStore × Option UpstreamTokenSet
take store id = let (rest, found) = take_entry id store in (rest, found >>= λ e. some e.0)

-- A set that is not stored is handed back.
unfoldable pub replace :
    UpstreamStore
    → Bytes
    → UpstreamTokenSet
    → Instant
    → Reads
    → UpstreamStore × Result (Unit {0}) UpstreamTokenSet
unfolding session_deadline
replace store id set now r = elim (Map.get id store) [
  | none ↦ (store, err set)
  | some e ↦
      if ltb now e.1
      then (Map.insert id (set, session_deadline r set) store, ok tt)
      else (store, err set)
]

-- The number of sessions before their deadline.
unfoldable pub live_len : UpstreamStore → Instant → ℕ
live_len store now = length (filter (λ e. ltb now e.1.1) store)

unfoldable pub sweep_expired :
    UpstreamStore → Instant → UpstreamStore × List (Bytes × UpstreamTokenSet)
sweep_expired store now =
    (retain (λ _ e. ltb now e.1) store, map (λ e. (e.0, e.1.0)) (filter (λ e. leb e.1.1 now) store))
