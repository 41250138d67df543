-- ===== src/OauthProxy/Requests/Reached.antt =====
-- Each endpoint, and the middleware, is a sequence of the stores' operations.
use ruprogress_mcp.Std.Clock.{Duration, Instant}
use ruprogress_mcp.RedmineClient.Model.{Introspection, OauthToken}
use ruprogress_mcp.OauthProxy.Pkce.{generate_verifier}
use ruprogress_mcp.OauthProxy.Crypto.{Crypto}
use ruprogress_mcp.Base.{
  Bool, Bytes, List, Option, Option-cases, Result, Result-cases, arith, bytes_eq, inl, inr, none,
  some,
}
use ruprogress_mcp.Auth.Verifier.{Cache, Refusal}
use ruprogress_mcp.Auth.Bearer.{extract_bearer}
use ruprogress_mcp.OauthProxy.State.Reachable.{
  Reachable, then_step, step, registers, touches, creates, takes_transaction, mints_code, resolves,
}
use ruprogress_mcp.OauthProxy.Transactions
use ruprogress_mcp.OauthProxy.Registry
use ruprogress_mcp.OauthProxy.Codes
use ruprogress_mcp.OauthProxy.Tokens
use ruprogress_mcp.OauthProxy.Register
use ruprogress_mcp.OauthProxy.Register.{RegisterRequest}
use ruprogress_mcp.OauthProxy.State.{ProxyState, RegisterReads, register_client}
use ruprogress_mcp.OauthProxy.Transactions.{Transaction}
use ruprogress_mcp.OauthProxy.Authorize.{
  Site, AuthorizeQuery, AuthorizeReads, CallbackQuery, CallbackReads, authorize, authorize_phase_a,
  authorize_phase_b, start_transaction, nonempty, requested_scopes,
}
use ruprogress_mcp.OauthProxy.Callback.{callback, finish_callback, upstream_set}
use ruprogress_mcp.Auth.Proxy.{ProxyReads, require_proxy_bearer, admit_token, upstream_access}

module _ (c : Crypto) where
  pub register-Reachable :
      (permits : Bytes → Bool) (p : ProxyState) (payload : RegisterRequest) (rng : Option Bytes)
      (t : RegisterReads)
      → Reachable c p
      → Reachable c (Register.register permits p payload rng t).0
  unfolding Register.register
  register-Reachable permits p payload rng t r =
      let made : Reachable c (register_client p payload.redirect_uris payload.client_name rng t).0 =
        (unfold step in then_step r (registers payload.redirect_uris payload.client_name rng t)) in
      ground (arith, r, made)

  phase_a-Reachable :
      (site : Site) (p : ProxyState) (query : AuthorizeQuery) (now : Instant)
      → Reachable c p
      → Reachable c (authorize_phase_a site p query now).0
  unfolding authorize_phase_a
  phase_a-Reachable site p query now r =
      let touched : (id : Bytes)
          → Reachable c (record p { registry = Registry.touch p.registry id now }) =
        λ id. (unfold step in then_step r (touches id now)) in
      elim (Option-cases (nonempty query.client_id)) [
        | inl unnamed ↦ ground (arith, r, unnamed)
        | inr (id, named) ↦ ground (arith, r, named, touched id)
      ]

  start_transaction-Reachable :
      (site : Site) (p : ProxyState) (query : AuthorizeQuery)
      (client_id redirect_uri code_challenge : Bytes) (asked : List Bytes) (t : AuthorizeReads)
      → Reachable c p
      → Reachable c
          (start_transaction c site p query client_id redirect_uri code_challenge asked t).0
  unfolding start_transaction
  start_transaction-Reachable site p query client_id redirect_uri code_challenge asked t r =
      let opened : (tx : Transaction)
          → Reachable c (record p {
            transactions =
                (Transactions.create c p.transactions tx t.transaction_rng t.create_at t.end).0;
          }) =
        λ tx. (unfold step in then_step r (creates tx t.transaction_rng t.create_at t.end)) in
      elim (Option-cases (generate_verifier c t.verifier_rng)) [
        | inl failed ↦ ground (arith, r, failed)
        | inr (verifier, drawn) ↦ ground (
          arith,
          r,
          drawn,
          opened (record {
            client_id = client_id;
            redirect_uri = redirect_uri;
            code_challenge = code_challenge;
            scopes = asked;
            client_state = query.state;
            upstream_code_verifier = verifier;
          }),
        )
      ]

  phase_b-Reachable :
      (site : Site) (p : ProxyState) (query : AuthorizeQuery) (client_id redirect_uri : Bytes)
      (t : AuthorizeReads)
      → Reachable c p
      → Reachable c (authorize_phase_b c site p query client_id redirect_uri t).0
  unfolding authorize_phase_b
  phase_b-Reachable site p query client_id redirect_uri t r =
      elim (Option-cases (nonempty query.code_challenge)) [
        | inl unchallenged ↦ ground (arith, r, unchallenged)
        | inr (challenge, sent) ↦ elim (Option-cases (requested_scopes site query.scope)) [
          | inl refused ↦ ground (arith, r, sent, refused)
          | inr (asked, narrowed) ↦ ground (
            arith,
            r,
            sent,
            narrowed,
            start_transaction-Reachable site p query client_id redirect_uri challenge asked t r,
          )
        ]
      ]

  pub authorize-Reachable :
      (site : Site) (p : ProxyState) (query : AuthorizeQuery) (t : AuthorizeReads)
      → Reachable c p
      → Reachable c (authorize c site p query t).0
  unfolding authorize
  authorize-Reachable site p query t r =
      let reached = phase_a-Reachable site p query t.touch_at r in
      elim (Result-cases (authorize_phase_a site p query t.touch_at).1) [
        | inr (message, failed) ↦ ground (arith, reached, failed)
        | inl ((client_id, redirect_uri), checked) ↦ ground (
          arith,
          checked,
          phase_b-Reachable site (authorize_phase_a site p query t.touch_at).0 query client_id
              redirect_uri t reached,
        )
      ]

  pub callback-Reachable :
      (site : Site) (p : ProxyState) (query : CallbackQuery) (now : Instant)
      → Reachable c p
      → Reachable c (callback c site p query now).0
  unfolding callback
  callback-Reachable site p query now r =
      let taken : (id : Bytes)
          → Reachable c
              (record p { transactions = (Transactions.take c p.transactions id now).0 }) =
        λ id. (unfold step in then_step r (takes_transaction id now)) in
      elim (Option-cases (nonempty query.state)) [
        | inl unnamed ↦ ground (arith, r, unnamed)
        | inr (id, named) ↦ ground (arith, r, named, taken id)
      ]

  pub finish_callback-Reachable :
      (site : Site) (p : ProxyState) (transaction : Transaction) (answer : Option OauthToken)
      (t : CallbackReads)
      → Reachable c p
      → Reachable c (finish_callback c site p transaction answer t).0
  unfolding finish_callback
  finish_callback-Reachable site p transaction none t r = r
  finish_callback-Reachable site p transaction (some token) t r =
      let minted : Reachable c (record p {
        codes =
            (Codes.mint c p.codes transaction.client_id transaction.redirect_uri
              transaction.code_challenge (upstream_set c site transaction token t) t.code_rng
              t.mint_at t.end).0;
      }) =
        (unfold step in
          then_step r (
            mints_code transaction.client_id transaction.redirect_uri transaction.code_challenge
              (upstream_set c site transaction token t) t.code_rng t.mint_at t.end)) in
      ground (arith, minted)

  pub bearer-Reachable :
      (to_str : Bytes → Option Bytes) (ttl : Duration) (p : ProxyState) (cache : Cache)
      (headers : List Bytes) (answer : Result Introspection Refusal) (t : ProxyReads)
      → Reachable c p
      → Reachable c (require_proxy_bearer c to_str ttl p cache headers answer t).0
  unfolding require_proxy_bearer admit_token upstream_access
  bearer-Reachable to_str ttl p cache headers answer t r =
      let resolved : (presented : Bytes)
          → Reachable c
              (record p { tokens = (Tokens.resolve c p.tokens presented t.resolve_at).0 }) =
        λ presented. (unfold step in then_step r (resolves presented t.resolve_at)) in
      elim (Result-cases (extract_bearer to_str headers)) [
        | inr (e, failed) ↦ ground (arith, r, failed)
        | inl (presented, extracted) ↦ ground (arith, r, extracted, resolved presented)
      ]
