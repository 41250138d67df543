-- ===== src/OauthProxy/Authorize.antt =====
-- endpoints.rs, `authorize` and `auth_callback`, from the decoded query on.
pub mod Redirects
use ruprogress_mcp.Std.Text.{join}
use ruprogress_mcp.Std.Clock.{Instant, Reads}
use ruprogress_mcp.RedmineClient.Model.{scopes}
use ruprogress_mcp.OauthProxy.State.{ProxyState}
use ruprogress_mcp.OauthProxy.Crypto.{Crypto}
use ruprogress_mcp.Base.{
  Bool, Bytes, List, Option, Result, [], any, bytes_eq, codes, err, if◌then◌else◌, nat_eq, none,
  not, ok, some, ℕ, ◌++◌, ◌==◌, ◌∷◌,
}
use ruprogress_mcp.Std.Unicode.{split_whitespace}
use ruprogress_mcp.OauthProxy.Registry
use ruprogress_mcp.OauthProxy.Transactions
use ruprogress_mcp.OauthProxy.Transactions.{Transaction}
use ruprogress_mcp.OauthProxy.Codes
use ruprogress_mcp.OauthProxy.Scopes.{narrow}
use ruprogress_mcp.OauthProxy.Pkce.{generate_verifier, challenge_for}
use ruprogress_mcp.OauthProxy.RefreshGrant.{scopes_of, secs_or_hour}

-- What the endpoints are given: the redirect policy, the configuration, and the url crate's
-- parsing of a URL with `append_pair` of each pair, `none` for a text that is no URL.
pub record Site : Type 0 where
  pub permits : Bytes → Bool
  pub with_query : Bytes → List (Bytes × Bytes) → Option Bytes
  pub base_url : Bytes
  pub redmine_base : Bytes
  pub upstream_client_id : Bytes
  pub advertised : List Bytes

-- A text with its status, or a redirect.
pub data Reply : Type 0 where
  plain : ℕ → Bytes → Reply
  redirect : Bytes → Reply

pub record AuthorizeQuery : Type 0 where
  pub response_type : Option Bytes
  pub client_id : Option Bytes
  pub redirect_uri : Option Bytes
  pub scope : Option Bytes
  pub state : Option Bytes
  pub code_challenge : Option Bytes
  pub code_challenge_method : Option Bytes

pub record CallbackQuery : Type 0 where
  pub code : Option Bytes
  pub state : Option Bytes
  pub error : Option Bytes
  pub error_description : Option Bytes

pub record AuthorizeReads : Type 0 where
  pub touch_at : Instant
  pub verifier_rng : Option Bytes
  pub transaction_rng : Option Bytes
  pub create_at : Instant
  pub end : Reads

pub record CallbackReads : Type 0 where
  pub expiry : Reads
  pub code_rng : Option Bytes
  pub mint_at : Instant
  pub end : Reads

unfoldable pub trim_trailing_slash : Bytes → Bytes
trim_trailing_slash [] = []
trim_trailing_slash (b ∷ []) = if b == b'/' then [] else b ∷ []
trim_trailing_slash (b ∷ d ∷ bs) = b ∷ trim_trailing_slash (d ∷ bs)

-- `.filter(|s| !s.is_empty())`
abbrev pub nonempty : Option Bytes → Option Bytes
nonempty none = none
nonempty (some []) = none
nonempty (some (b ∷ bs)) = some (b ∷ bs)

-- `as_deref() != Some(..)`, against a text that is not empty.
abbrev pub or_empty : Option Bytes → Bytes
or_empty none = []
or_empty (some text) = text

abbrev pub state_pair : Option Bytes → List (Bytes × Bytes)
state_pair none = []
state_pair (some state) = (codes "state", state) ∷ []

module _ (site : Site) where
  unfoldable pub issuer : List (Bytes × Bytes)
  unfolding trim_trailing_slash
  issuer = (codes "iss", trim_trailing_slash site.base_url) ∷ []

  abbrev pub goes_to : Option Bytes → Bytes → Reply
  goes_to none message = plain 400 message
  goes_to (some url) message = redirect url

  unfoldable pub redirect_error : Bytes → Option Bytes → Bytes → Bytes → Reply
  unfolding issuer
  redirect_error redirect_uri client_state error description =
      goes_to
        (site.with_query redirect_uri (
          (codes "error", error)
          ∷ (codes "error_description", description)
          ∷ (state_pair client_state ++ issuer)))
        (codes "redirect_uri is not a valid URL")

  -- The client id and redirect URI, or the message of a 400.
  unfoldable pub authorize_phase_a :
      ProxyState → AuthorizeQuery → Instant → ProxyState × Result (Bytes × Bytes) Bytes
  authorize_phase_a p query now = elim (nonempty query.client_id) [
    | none ↦ (p, err (codes "client_id is required"))
    | some client_id ↦ elim (Registry.get p.registry client_id) [
      | none ↦ (p, err (codes "client_id is not a registered client"))
      | some registration ↦
          let touched = record p { registry = Registry.touch p.registry client_id now } in
          elim (nonempty query.redirect_uri) [
            | none ↦ (touched, err (codes "redirect_uri is required"))
            | some redirect_uri ↦
                if not (any (λ uri. uri == redirect_uri) registration.redirect_uris)
                then (touched, err (codes "redirect_uri is not registered for this client"))
                else if not (site.permits redirect_uri)
                then (
                  touched,
                  err (
                      codes
                        "redirect_uri is no longer permitted by this deployment's redirect-URI policy"),
                )
                else (touched, ok (client_id, redirect_uri))
          ]
    ]
  ]

  -- The scopes that are asked for; all that are advertised, if none are.
  unfoldable pub requested_scopes : Option Bytes → Option (List Bytes)
  requested_scopes none = some site.advertised
  requested_scopes (some raw) = elim (split_whitespace raw) [
    | [] ↦ some site.advertised
    | s ∷ ss ↦ narrow site.advertised raw
  ]

  unfoldable pub upstream_query : List Bytes → Bytes → Bytes → List (Bytes × Bytes)
  unfolding trim_trailing_slash
  upstream_query scopes transaction_id upstream_challenge =
      (codes "client_id", site.upstream_client_id)
      ∷ (codes "redirect_uri", trim_trailing_slash site.base_url ++ codes "/auth/callback")
      ∷ (codes "response_type", codes "code")
      ∷ (codes "scope", join (codes " ") scopes)
      ∷ (codes "state", transaction_id)
      ∷ (codes "code_challenge", upstream_challenge)
      ∷ (codes "code_challenge_method", codes "S256")
      ∷ []

  -- The redirect to Redmine's own authorize endpoint.
  unfoldable pub upstream_authorize : List Bytes → Bytes → Bytes → Option Bytes
  unfolding upstream_query
  upstream_authorize scopes transaction_id upstream_challenge =
      site.with_query (trim_trailing_slash site.redmine_base ++ codes "/oauth/authorize")
        (upstream_query scopes transaction_id upstream_challenge)

module _ (c : Crypto) (site : Site) where
  -- After the checks of phase B.
  unfoldable pub start_transaction :
      ProxyState
      → AuthorizeQuery
      → Bytes
      → Bytes
      → Bytes
      → List Bytes
      → AuthorizeReads
      → ProxyState × Reply
  unfolding redirect_error upstream_authorize challenge_for generate_verifier
  start_transaction p query client_id redirect_uri code_challenge scopes t =
      elim (generate_verifier c t.verifier_rng) [
        | none ↦ (
          p,
          redirect_error site redirect_uri query.state (codes "temporarily_unavailable")
              (codes "the authorization service is temporarily unable to start a new flow"),
        )
        | some upstream_verifier ↦
            let transaction : Transaction = record {
              client_id = client_id;
              redirect_uri = redirect_uri;
              code_challenge = code_challenge;
              scopes = scopes;
              client_state = query.state;
              upstream_code_verifier = upstream_verifier;
            } in
            let (store, created) =
              Transactions.create c p.transactions transaction t.transaction_rng t.create_at
                t.end in
            let opened = record p { transactions = store } in
            elim created [
              | none ↦ (
                opened,
                redirect_error site redirect_uri query.state (codes "temporarily_unavailable")
                    (codes "the authorization service is at capacity; try again shortly"),
              )
              | some transaction_id ↦
                  elim (upstream_authorize site scopes transaction_id
                    (challenge_for c upstream_verifier)) [
                      | none ↦ (
                        opened,
                        redirect_error site redirect_uri query.state (codes "server_error")
                            (codes "this server's Redmine URL is misconfigured"),
                      )
                      | some url ↦ (opened, redirect url)
                    ]
            ]
      ]

  unfoldable pub authorize_phase_b :
      ProxyState → AuthorizeQuery → Bytes → Bytes → AuthorizeReads → ProxyState × Reply
  unfolding redirect_error requested_scopes start_transaction
  authorize_phase_b p query client_id redirect_uri t =
      if not (or_empty query.response_type == codes "code")
      then (
        p,
        redirect_error site redirect_uri query.state (codes "unsupported_response_type")
            (codes "response_type must be \"code\""),
      )
      else elim (nonempty query.code_challenge) [
        | none ↦ (
          p,
          redirect_error site redirect_uri query.state (codes "invalid_request")
              (codes "code_challenge is required"),
        )
        | some code_challenge ↦
            if not (or_empty query.code_challenge_method == codes "S256")
            then (
              p,
              redirect_error site redirect_uri query.state (codes "invalid_request")
                  (codes "code_challenge_method must be \"S256\""),
            )
            else elim (requested_scopes site query.scope) [
              | none ↦ (
                p,
                redirect_error site redirect_uri query.state (codes "invalid_scope")
                    (codes "one or more requested scopes are not advertised by this deployment"),
              )
              | some scopes ↦
                  start_transaction p query client_id redirect_uri code_challenge scopes t
            ]
      ]

  unfoldable pub authorize : ProxyState → AuthorizeQuery → AuthorizeReads → ProxyState × Reply
  unfolding authorize_phase_a authorize_phase_b
  authorize p query t =
      let (checked, pair) = authorize_phase_a site p query t.touch_at in
      elim pair [
        | err message ↦ (checked, plain 400 message)
        | ok (client_id, redirect_uri) ↦ authorize_phase_b checked query client_id redirect_uri t
      ]
