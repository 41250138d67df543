-- ===== src/OauthProxy/Registry.antt =====
-- store.rs, `ClientRegistry`: the dynamically registered clients. Strings are their bytes.
pub mod Eviction
use ruprogress_mcp.Std.Map.{HashMap, len, retain}
use ruprogress_mcp.Std.Clock.{Duration, Instant, from_hours, saturating_duration_since}
use ruprogress_mcp.OauthProxy.Crypto.{mint_client_id}
use ruprogress_mcp.Base.{
  Bool, Bytes, List, Option, contains, if◌then◌else◌, leb, ltb, none, some, ℕ, ◌||◌, bytes_eq,
  nat_eq, ◌>>=◌,
}
use ruprogress_mcp.Std.Map

pub record ClientRegistration : Type 0 where
  pub client_id : Bytes
  pub redirect_uris : List Bytes
  pub client_name : Option Bytes

pub record Entry : Type 0 where
  pub registration : ClientRegistration
  pub last_seen : Instant

abbrev pub max_clients : ℕ
max_clients = 1000

abbrev pub client_idle_ttl : Duration
client_idle_ttl = from_hours 1

abbrev pub ClientRegistry : Type 0
ClientRegistry = HashMap Bytes Entry

-- What the capacity sweep keeps: clients with a live token, and clients seen in the last hour.
unfoldable pub is_kept : List Bytes → Instant → Bytes → Entry → Bool
is_kept live now client_id entry =
    contains live client_id || ltb (saturating_duration_since now entry.last_seen) client_idle_ttl

unfoldable pub make_room : ClientRegistry → List Bytes → Instant → ClientRegistry
unfolding is_kept
make_room inner live now =
    if leb max_clients (len inner) then retain (is_kept live now) inner else inner

-- `now` is read by the sweep, `later` when the client is stored.
unfoldable pub register :
    ClientRegistry
    → List Bytes
    → Option Bytes
    → List Bytes
    → Option Bytes
    → Instant
    → Instant
    → ClientRegistry × Option ClientRegistration
unfolding make_room mint_client_id
register registry redirect_uris client_name live rng now later =
    let inner = make_room registry live now in
    if leb max_clients (len inner) then (inner, none) else elim (mint_client_id rng) [
      | none ↦ (inner, none)
      | some id ↦
          let registration : ClientRegistration = record {
            client_id = id;
            redirect_uris = redirect_uris;
            client_name = client_name;
          } in
          (
            Map.insert id (record { registration = registration; last_seen = later }) inner,
            some registration,
          )
    ]

unfoldable pub get : ClientRegistry → Bytes → Option ClientRegistration
get registry client_id = do entry ← Map.get client_id registry; some entry.registration

unfoldable pub touch : ClientRegistry → Bytes → Instant → ClientRegistry
touch registry client_id now = elim (Map.get client_id registry) [
  | none ↦ registry
  | some entry ↦ Map.insert client_id (record entry { last_seen = now }) registry
]
