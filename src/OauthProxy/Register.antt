-- ===== src/OauthProxy/Register.antt =====
-- endpoints.rs, `register`, from the decoded body on. The texts of the refusals, which quote the
-- offending entry, are left out.
use ruprogress_mcp.OauthProxy.Registry.{ClientRegistration}
use ruprogress_mcp.Base.{
  Bool, Bytes, List, Option, Option-cases, [], all, arith, bytes_eq, codes, contains, if◌then◌else◌,
  inl, inr, is_empty, none, not, some, sym, true, ◌==◌, ◌∷◌, ◌≡◌,
}
use ruprogress_mcp.OauthProxy.Registry
use ruprogress_mcp.OauthProxy.State.{register_client, live_clients, ProxyState, RegisterReads}
use ruprogress_mcp.OauthProxy.Registry.Eviction.{get-register}

pub record RegisterRequest : Type 0 where
  pub redirect_uris : List Bytes
  pub client_name : Option Bytes
  pub grant_types : Option (List Bytes)
  pub response_types : Option (List Bytes)
  pub token_endpoint_auth_method : Option Bytes

-- 201 with the registration, 400 with an error code, or 503.
pub data Registered : Type 0 where
  created : ClientRegistration → Registered
  invalid_client_metadata invalid_redirect_uri temporarily_unavailable : Registered

abbrev pub supported_grant_types : List Bytes
supported_grant_types = codes "authorization_code" ∷ codes "refresh_token" ∷ []

abbrev pub supported_response_types : List Bytes
supported_response_types = codes "code" ∷ []

-- A list that is left out names nothing unsupported.
unfoldable pub all_supported : List Bytes → Option (List Bytes) → Bool
all_supported supported none = true
all_supported supported (some names) = all (λ name. contains supported name) names

unfoldable pub is_public : Option Bytes → Bool
is_public none = true
is_public (some method) = method == codes "none"

unfoldable pub registered : Option ClientRegistration → Registered
registered none = temporarily_unavailable
registered (some registration) = created registration

unfoldable pub register :
    (Bytes → Bool)
    → ProxyState
    → RegisterRequest
    → Option Bytes
    → RegisterReads
    → ProxyState × Registered
unfolding all_supported is_public registered
register permits p payload rng t =
    if not (all_supported supported_grant_types payload.grant_types)
    then (p, invalid_client_metadata)
    else if not (all_supported supported_response_types payload.response_types)
    then (p, invalid_client_metadata)
    else if not (is_public payload.token_endpoint_auth_method)
    then (p, invalid_client_metadata)
    else if is_empty payload.redirect_uris
    then (p, invalid_client_metadata)
    else if not (all permits payload.redirect_uris)
    then (p, invalid_redirect_uri)
    else let (next, registration) =
        register_client p payload.redirect_uris payload.client_name rng t in
      (next, registered registration)

-- A client that is created can be looked up under its id, with exactly the redirect URIs that it
-- sent, every one of which the policy permits.
pub register-created :
    (permits : Bytes → Bool) (p : ProxyState) (payload : RegisterRequest) (rng : Option Bytes)
    (t : RegisterReads) (registration : ClientRegistration)
    → (register permits p payload rng t).1 ≡ created registration
    → (Registry.get (register permits p payload rng t).0.registry registration.client_id
        ≡ some registration)
      × (registration.redirect_uris ≡ payload.redirect_uris)
      × (all permits registration.redirect_uris ≡ true)
unfolding register register_client registered
register-created permits p payload rng t registration h =
    let made =
      get-register p.registry payload.redirect_uris payload.client_name (live_clients p t) rng
        t.sweep_at t.stored_at in
    elim (Option-cases
      (Registry.register p.registry payload.redirect_uris payload.client_name (live_clients p t) rng
        t.sweep_at t.stored_at).1) [
          | inl failed ↦ absurd (ground (arith, h, failed))
          | inr (found, stored) ↦
              let same : found ≡ registration = ground (arith, h, stored) in
              let facts = made found stored in
              let permitted : all permits payload.redirect_uris ≡ true =
                ground (arith, h, stored) in
              rw (sym same) (ground (arith, h, facts.0), facts.1, rw (facts.1) permitted)
        ]
