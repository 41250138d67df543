-- ===== src/OauthProxy/Callback.antt =====
-- endpoints.rs, `auth_callback`, from the decoded query on. The handler awaits Redmine's answer:
-- `callback` is what it does before, and `finish_callback` after.
pub mod Binding
use ruprogress_mcp.Std.Clock.{Instant, from_secs}
use ruprogress_mcp.RedmineClient.Model.{OauthToken}
use ruprogress_mcp.OauthProxy.Upstream.{UpstreamTokenSet, granted_scopes}
use ruprogress_mcp.OauthProxy.State.{ProxyState}
use ruprogress_mcp.OauthProxy.Crypto.{Crypto}
use ruprogress_mcp.OauthProxy.Capacity.{expires_after}
use ruprogress_mcp.Base.{Bytes, Option, bytes_eq, codes, none, some, ◌++◌, ◌∷◌}
use ruprogress_mcp.OauthProxy.Transactions
use ruprogress_mcp.OauthProxy.Transactions.{Transaction}
use ruprogress_mcp.OauthProxy.Codes
use ruprogress_mcp.OauthProxy.RefreshGrant.{scopes_of, secs_or_hour}
use ruprogress_mcp.OauthProxy.Authorize.{
  Site, Reply, plain, redirect, CallbackQuery, CallbackReads, nonempty, state_pair, issuer,
  redirect_error, goes_to,
}

-- An answer, or the code to exchange and the transaction it is for.
pub data Called : Type 0 where
  replied : Reply → Called
  exchanges : Bytes → Transaction → Called

abbrev pub described : Option Bytes → Bytes
described none = codes "the upstream authorization server returned an error"
described (some text) = text

module _ (c : Crypto) (site : Site) where
  -- The transaction has been taken.
  unfoldable pub upstream_outcome : CallbackQuery → Transaction → Called
  upstream_outcome query transaction = elim (nonempty query.error) [
    | some reason ↦ replied (
        redirect_error site transaction.redirect_uri transaction.client_state reason
          (described query.error_description))
    | none ↦ elim (nonempty query.code) [
      | none ↦ replied (
          redirect_error site transaction.redirect_uri transaction.client_state
            (codes "invalid_request")
            (codes "the upstream authorization server did not return a code"))
      | some code ↦ exchanges code transaction
    ]
  ]

  unfoldable pub callback : ProxyState → CallbackQuery → Instant → ProxyState × Called
  unfolding upstream_outcome
  callback p query now = elim (nonempty query.state) [
    | none ↦ (p, replied (plain 400 (codes "state is required")))
    | some raw_state ↦
        let (store, taken) = Transactions.take c p.transactions raw_state now in
        elim taken [
          | none ↦ (
            record p { transactions = store },
            replied (plain 400 (codes "state is unknown, expired, or already used")),
          )
          | some transaction ↦
              (record p { transactions = store }, upstream_outcome query transaction)
        ]
  ]

  unfoldable pub upstream_set : Transaction → OauthToken → CallbackReads → UpstreamTokenSet
  upstream_set transaction token t = record {
    access = token.access_token;
    refresh = token.refresh_token;
    granted_scopes = scopes_of token transaction.scopes;
    expires_at = expires_after t.expiry (from_secs (secs_or_hour token.expires_in));
  }

  unfoldable pub hand_out : Transaction → Bytes → Reply
  unfolding issuer
  hand_out transaction code =
      goes_to site
        (site.with_query transaction.redirect_uri
          ((codes "code", code) ∷ (state_pair transaction.client_state ++ issuer site)))
        (codes "stored redirect_uri is not a valid URL")

  -- `none`: the exchange failed.
  unfoldable pub finish_callback :
      ProxyState → Transaction → Option OauthToken → CallbackReads → ProxyState × Reply
  unfolding redirect_error upstream_set hand_out
  finish_callback p transaction none t = (
    p,
    redirect_error site transaction.redirect_uri transaction.client_state (codes "server_error")
        (codes "failed to exchange the authorization code with the upstream authorization server"),
  )
  finish_callback p transaction (some token) t =
      let (store, minted) =
        Codes.mint c p.codes transaction.client_id transaction.redirect_uri
          transaction.code_challenge (upstream_set transaction token t) t.code_rng t.mint_at
          t.end in
      elim minted [
        | none ↦ (
          record p { codes = store },
          redirect_error site transaction.redirect_uri transaction.client_state
              (codes "temporarily_unavailable")
              (codes "the authorization service is at capacity; try again shortly"),
        )
        | some code ↦ (record p { codes = store }, hand_out transaction code)
      ]
