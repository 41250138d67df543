-- ===== src/OauthProxy/Registry/Eviction.antt =====
-- Which clients a full registry gives up, and which it never does.
use ruprogress_mcp.Std.Map.{
  Distinct, get-insert, get-retain, insert-Distinct, len, len-insert, len-retain-le, retain,
  retain-Distinct,
}
use ruprogress_mcp.Std.Clock.{Instant, saturating_duration_since}
use ruprogress_mcp.OauthProxy.Crypto.{mint_client_id}
use ruprogress_mcp.Base.{
  ==_refl, Bytes, List, Option, Option-cases, arith, bytes_beq_iff, bytes_eq, contains, inl, inr,
  none, some, true, ◌<◌, ◌>>=◌, ◌↔◌, ◌≡◌, ◌≢◌, ◌≤◌, ◌⊎◌,
}
use ruprogress_mcp.Std.Map
use ruprogress_mcp.OauthProxy.Registry.{
  get, ClientRegistration, ClientRegistry, Entry, client_idle_ttl, is_kept, make_room, max_clients,
  register, touch,
}

pub record IsRegistry (registry : ClientRegistry) : Type 0 where
  pub distinct : Distinct registry
  pub bounded : len registry ≤ max_clients

make_room-IsRegistry :
    (registry : ClientRegistry) (live : List Bytes) (now : Instant)
    → IsRegistry registry
    → IsRegistry (make_room registry live now)
unfolding make_room
make_room-IsRegistry registry live now v =
    let swept : IsRegistry (retain (is_kept live now) registry) = record {
      distinct = retain-Distinct (is_kept live now) registry v.distinct;
      bounded = omega (arith, len-retain-le (is_kept live now) registry, v.bounded);
    } in
    ground (arith, swept, v)

-- A client that is live or was seen within the idle time keeps its entry.
make_room-get :
    (registry : ClientRegistry) (live : List Bytes) (now : Instant) (id : Bytes) (entry : Entry)
    → Distinct registry
    → Map.get id registry ≡ some entry
    → is_kept live now id entry ≡ true
    → Map.get id (make_room registry live now) ≡ some entry
unfolding make_room
make_room-get registry live now id entry d h kept =
    ground (arith, get-retain (is_kept live now) id registry d)

module _ (registry : ClientRegistry) (redirect_uris : List Bytes) (client_name : Option Bytes)
    (live : List Bytes) (rng : Option Bytes) (now later : Instant) where
  -- Registration keeps the ids distinct and their number at most `max_clients`.
  pub register-IsRegistry :
      IsRegistry registry
      → IsRegistry (register registry redirect_uris client_name live rng now later).0
  unfolding register
  register-IsRegistry v =
      let room = make_room-IsRegistry registry live now v in
      elim (Option-cases (mint_client_id rng)) [
        | inl failed ↦ ground (arith, room)
        | inr (id, minted) ↦
            let entry : Entry = record {
              registration = record {
                client_id = id;
                redirect_uris = redirect_uris;
                client_name = client_name;
              };
              last_seen = later;
            } in
            let d = insert-Distinct id entry _ room.distinct in
            ground (arith, room, d, len-insert id entry (make_room registry live now))
      ]

  -- A registered client is found under its id, with the metadata that it sent.
  pub get-register :
      (registration : ClientRegistration)
      → (register registry redirect_uris client_name live rng now later).1 ≡ some registration
      → (get
            (register registry redirect_uris client_name live rng now later).0
            registration.client_id
          ≡ some registration)
        × (registration.redirect_uris ≡ redirect_uris)
        × (registration.client_name ≡ client_name)
  unfolding register get
  get-register registration h = ground (
    arith,
    get-insert registration.client_id registration.client_id
        (record { registration = registration; last_seen = later }) (make_room registry live now),
    ==_refl registration.client_id,
  )

  -- Registration fails exactly if the generator does or if the registry is full of clients that
  -- the sweep keeps.
  pub register-eq-none_iff :
      ((register registry redirect_uris client_name live rng now later).1 ≡ none)
      ↔ ((max_clients ≤ len (make_room registry live now)) ⊎ (rng ≡ none))
  unfolding register mint_client_id
  register-eq-none_iff = ground arith

  -- No registration evicts a client that holds a live token or was seen within the idle time:
  -- whatever the answer, its entry stays, unless the new id is the same.
  pub get-register_kept :
      (id : Bytes) (entry : Entry)
      → Distinct registry
      → Map.get id registry ≡ some entry
      → (contains live id ≡ true)
        ⊎ (saturating_duration_since now entry.last_seen < client_idle_ttl)
      → ((minted : Bytes) → mint_client_id rng ≡ some minted → minted ≢ id)
      → Map.get id (register registry redirect_uris client_name live rng now later).0 ≡ some entry
  unfolding register is_kept
  get-register_kept id entry d h reason fresh =
      let kept : is_kept live now id entry ≡ true = ground (arith, reason) in
      let room = make_room-get registry live now id entry d h kept in
      elim (Option-cases (mint_client_id rng)) [
        | inl failed ↦ ground (arith, room)
        | inr (new_id, minted) ↦ ground (
          arith,
          room,
          fresh new_id minted,
          bytes_beq_iff new_id id,
          get-insert id new_id
              (record {
                registration = record {
                  client_id = new_id;
                  redirect_uris = redirect_uris;
                  client_name = client_name;
                };
                last_seen = later;
              })
              (make_room registry live now),
        )
      ]

-- A touch changes no registration; it only moves the idle clock of its client.
pub get-touch :
    (registry : ClientRegistry) (client_id id : Bytes) (now : Instant)
    → (get (touch registry client_id now) id ≡ get registry id)
      × (Map.get client_id (touch registry client_id now)
          ≡ (Map.get client_id registry >>= λ entry. some (record entry { last_seen = now })))
unfolding get touch
get-touch registry client_id id now = elim (Option-cases (Map.get client_id registry)) [
  | inl missing ↦ rw (missing, touch, get) (ground arith)
  | inr (entry, found) ↦ ground (
    arith,
    get-insert id client_id (record entry { last_seen = now }) registry,
    get-insert client_id client_id (record entry { last_seen = now }) registry,
    bytes_beq_iff client_id id,
    ==_refl client_id,
  )
]
