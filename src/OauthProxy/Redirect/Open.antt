-- ===== src/OauthProxy/Redirect/Open.antt =====
-- endpoints.rs with redirect.rs: /authorize under the redirect policy.
use ruprogress_mcp.OauthProxy.Authorize.{AuthorizeQuery, AuthorizeReads, Site, authorize, redirect}
use ruprogress_mcp.OauthProxy.Authorize.Redirects.{
  IsRegistered, LeadsTo, authorize_redirects, endpoint,
}
use ruprogress_mcp.OauthProxy.Crypto.{Crypto}
use ruprogress_mcp.OauthProxy.Redirect.{RedirectPolicy, Url, permits}
use ruprogress_mcp.OauthProxy.Redirect.Floor.{IsAllowed, IsFloor, permits_iff}
use ruprogress_mcp.OauthProxy.State.{ProxyState}
use ruprogress_mcp.Base.{Bytes, Option, inl, inr, some, sym, ◌∙◌, ◌≡◌, ◌⊎◌}

-- A redirect URI that a registered client listed, and that the floor and the policy let through.
pub record IsSafe (site : Site) (p : ProxyState) (url_parse : Bytes → Option Url)
    (policy : RedirectPolicy) (redirect_uri : Bytes) : Type 0 where
  pub listed : IsRegistered site p redirect_uri
  pub parsed : Url
  pub parses : url_parse redirect_uri ≡ some parsed
  pub floored : IsFloor parsed
  pub allowed : IsAllowed policy parsed

-- Under the redirect policy, /authorize sends a browser only to Redmine's own authorize endpoint,
-- or back to a redirect URI that a registered client listed, that parses to an http or https URL
-- without user, password and fragment, that is on a loopback host unless it is https, and that
-- the policy allows.
pub authorize-IsSafe :
    (c : Crypto) (site : Site) (url_parse : Bytes → Option Url) (policy : RedirectPolicy)
    (p : ProxyState) (query : AuthorizeQuery) (t : AuthorizeReads) (url : Bytes)
    → ((uri : Bytes) → site.permits uri ≡ permits url_parse policy uri)
    → (authorize c site p query t).1 ≡ redirect url
    → (LeadsTo site url (endpoint site))
      ⊎ ((redirect_uri : Bytes) × IsSafe site p url_parse policy redirect_uri
          × LeadsTo site url redirect_uri)
authorize-IsSafe c site url_parse policy p query t url same h =
    elim (authorize_redirects c site p query t url h) [
      | inl upstream ↦ inl upstream
      | inr (redirect_uri, registered, back) ↦
          let (parsed, parses, floored, allowed) =
            (permits_iff url_parse policy redirect_uri).0
              (sym (same redirect_uri) ∙ registered.permitted) in
          inr (
            redirect_uri,
            record {
              listed = registered;
              parsed = parsed;
              parses = parses;
              floored = floored;
              allowed = allowed;
            },
            back,
          )
    ]
