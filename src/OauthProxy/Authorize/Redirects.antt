-- ===== src/OauthProxy/Authorize/Redirects.antt =====
-- Where /authorize sends a browser.
use ruprogress_mcp.OauthProxy.Pkce.{generate_verifier}
use ruprogress_mcp.Std.Clock.{Instant}
use ruprogress_mcp.OauthProxy.State.{ProxyState}
use ruprogress_mcp.OauthProxy.Registry.{ClientRegistration}
use ruprogress_mcp.OauthProxy.Crypto.{Crypto}
use ruprogress_mcp.Base.{
  codes, bytes_eq, ok, sym, Bool-cases, Option-cases, Result-cases, Bytes, List, Option, any, arith,
  bytes_eq, codes, none, some, true, ◌++◌, ◌==◌, ◌≡◌, ◌⊎◌, inl, inr,
}
use ruprogress_mcp.OauthProxy.Registry
use ruprogress_mcp.OauthProxy.Authorize.{upstream_query}
use ruprogress_mcp.OauthProxy.Transactions
use ruprogress_mcp.OauthProxy.Pkce.{challenge_for, generate_verifier}
use ruprogress_mcp.OauthProxy.Authorize.{
  Site, redirect, AuthorizeQuery, AuthorizeReads, nonempty, redirect_error, goes_to,
  authorize_phase_a, authorize_phase_b, start_transaction, authorize, upstream_authorize,
  trim_trailing_slash, requested_scopes, or_empty,
}

-- The URL is the target with some query.
abbrev pub LeadsTo : Site → Bytes → Bytes → Type 0
LeadsTo site url target = (pairs : List (Bytes × Bytes)) × (site.with_query target pairs ≡ some url)

-- A redirect URI that a client of the registry has registered and the policy permits.
pub record IsRegistered (site : Site) (p : ProxyState) (redirect_uri : Bytes) : Type 0 where
  pub client_id : Bytes
  pub registration : ClientRegistration
  pub known : Registry.get p.registry client_id ≡ some registration
  pub listed : any (λ uri. uri == redirect_uri) registration.redirect_uris ≡ true
  pub permitted : site.permits redirect_uri ≡ true

goes_to-redirect :
    (site : Site) (found : Option Bytes) (message url : Bytes)
    → goes_to site found message ≡ redirect url
    → found ≡ some url
goes_to-redirect site none message url h = absurd (ground (arith, h))
goes_to-redirect site (some u) message url h = ground (arith, h)

redirect_error-LeadsTo :
    (site : Site) (redirect_uri : Bytes) (client_state : Option Bytes)
    (reason description url : Bytes)
    → redirect_error site redirect_uri client_state reason description ≡ redirect url
    → LeadsTo site url redirect_uri
unfolding redirect_error
redirect_error-LeadsTo site redirect_uri client_state reason description url h =
    (_, goes_to-redirect site _ _ url h)

abbrev pub endpoint : Site → Bytes
endpoint site = trim_trailing_slash site.redmine_base ++ codes "/oauth/authorize"

phase_a-IsRegistered :
    (site : Site) (p : ProxyState) (query : AuthorizeQuery) (now : Instant)
    (client_id redirect_uri : Bytes)
    → (authorize_phase_a site p query now).1 ≡ ok (client_id, redirect_uri)
    → IsRegistered site p redirect_uri
unfolding authorize_phase_a
phase_a-IsRegistered site p query now client_id redirect_uri h =
    elim (Option-cases (nonempty query.client_id)) [
      | inl unnamed ↦ absurd (ground (arith, h, unnamed))
      | inr (name, named) ↦ elim (Option-cases (Registry.get p.registry name)) [
        | inl unknown ↦ absurd (ground (arith, h, named, unknown))
        | inr (registration, known) ↦ elim (Option-cases (nonempty query.redirect_uri)) [
          | inl untold ↦ absurd (ground (arith, h, named, known, untold))
          | inr (uri, told) ↦
              let same : uri ≡ redirect_uri = ground (arith, h, named, known, told) in
              record {
                client_id = name;
                registration = registration;
                known = known;
                listed = rw (sym same) (ground (arith, h, named, known, told));
                permitted = rw (sym same) (ground (arith, h, named, known, told));
              }
        ]
      ]
    ]

start_transaction-LeadsTo :
    (c : Crypto) (site : Site) (p : ProxyState) (query : AuthorizeQuery)
    (client_id redirect_uri code_challenge : Bytes) (asked : List Bytes) (t : AuthorizeReads)
    (url : Bytes)
    → (start_transaction c site p query client_id redirect_uri code_challenge asked t).1
      ≡ redirect url
    → (LeadsTo site url redirect_uri) ⊎ (LeadsTo site url (endpoint site))
unfolding start_transaction upstream_authorize
start_transaction-LeadsTo c site p query client_id redirect_uri code_challenge asked t url h =
    elim (Option-cases (generate_verifier c t.verifier_rng)) [
      | inl failed ↦ inl (
          redirect_error-LeadsTo site redirect_uri query.state (codes "temporarily_unavailable")
            (codes "the authorization service is temporarily unable to start a new flow") url
            (ground (arith, h, failed)))
      | inr (verifier, drawn) ↦
          (let created =
              Transactions.create c p.transactions
                (record {
                  client_id = client_id;
                  redirect_uri = redirect_uri;
                  code_challenge = code_challenge;
                  scopes = asked;
                  client_state = query.state;
                  upstream_code_verifier = verifier;
                })
                t.transaction_rng t.create_at t.end in
            elim (Option-cases created.1) [
              | inl full ↦ inl (
                  redirect_error-LeadsTo site redirect_uri query.state
                    (codes "temporarily_unavailable")
                    (codes "the authorization service is at capacity; try again shortly") url
                    (ground (arith, h, drawn, full)))
              | inr (transaction_id, made) ↦
                  elim (Option-cases
                    (upstream_authorize site asked transaction_id (challenge_for c verifier))) [
                      | inl unparsed ↦ inl (
                          redirect_error-LeadsTo site redirect_uri query.state
                            (codes "server_error")
                            (codes "this server's Redmine URL is misconfigured") url
                            (ground (arith, h, drawn, made, unparsed)))
                      | inr (u, parsed) ↦ inr (
                        upstream_query site asked transaction_id (challenge_for c verifier),
                        (ground (arith, h, drawn, made, parsed)),
                      )
                    ]
            ])
    ]

phase_b-LeadsTo :
    (c : Crypto) (site : Site) (p : ProxyState) (query : AuthorizeQuery)
    (client_id redirect_uri : Bytes) (t : AuthorizeReads) (url : Bytes)
    → (authorize_phase_b c site p query client_id redirect_uri t).1 ≡ redirect url
    → (LeadsTo site url redirect_uri) ⊎ (LeadsTo site url (endpoint site))
unfolding authorize_phase_b
phase_b-LeadsTo c site p query client_id redirect_uri t url h =
    elim (Bool-cases (or_empty query.response_type == codes "code")) [
      | inr other_type ↦ inl (
          redirect_error-LeadsTo site redirect_uri query.state (codes "unsupported_response_type")
            (codes "response_type must be \"code\"") url (ground (arith, h, other_type)))
      | inl is_code ↦ elim (Option-cases (nonempty query.code_challenge)) [
        | inl unchallenged ↦ inl (
            redirect_error-LeadsTo site redirect_uri query.state (codes "invalid_request")
              (codes "code_challenge is required") url (ground (arith, h, is_code, unchallenged)))
        | inr (challenge, sent) ↦
            elim (Bool-cases (or_empty query.code_challenge_method == codes "S256")) [
              | inr unsupported ↦ inl (
                  redirect_error-LeadsTo site redirect_uri query.state (codes "invalid_request")
                    (codes "code_challenge_method must be \"S256\"") url
                    (ground (arith, h, is_code, sent, unsupported)))
              | inl is_s256 ↦ elim (Option-cases (requested_scopes site query.scope)) [
                | inl refused ↦ inl (
                    redirect_error-LeadsTo site redirect_uri query.state (codes "invalid_scope")
                      (codes "one or more requested scopes are not advertised by this deployment")
                      url (ground (arith, h, is_code, sent, is_s256, refused)))
                | inr (asked, narrowed) ↦
                    start_transaction-LeadsTo c site p query client_id redirect_uri challenge asked
                      t url (ground (arith, h, is_code, sent, is_s256, narrowed))
              ]
            ]
      ]
    ]

-- No open redirect: /authorize sends a browser only to Redmine's own authorize endpoint, or to a
-- redirect URI that a registered client listed and the policy permits.
pub authorize_redirects :
    (c : Crypto) (site : Site) (p : ProxyState) (query : AuthorizeQuery) (t : AuthorizeReads)
    (url : Bytes)
    → (authorize c site p query t).1 ≡ redirect url
    → (LeadsTo site url (endpoint site))
      ⊎ ((redirect_uri : Bytes) × IsRegistered site p redirect_uri × LeadsTo site url redirect_uri)
unfolding authorize
authorize_redirects c site p query t url h =
    elim (Result-cases (authorize_phase_a site p query t.touch_at).1) [
      | inr (message, failed) ↦ absurd (ground (arith, h, failed))
      | inl ((client_id, redirect_uri), checked) ↦
          elim (phase_b-LeadsTo c site (authorize_phase_a site p query t.touch_at).0 query client_id
            redirect_uri t url (ground (arith, h, checked))) [
              | inr upstream ↦ inl upstream
              | inl back ↦ inr (
                redirect_uri,
                phase_a-IsRegistered site p query t.touch_at client_id redirect_uri checked,
                back,
              )
            ]
    ]
