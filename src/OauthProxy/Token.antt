-- ===== src/OauthProxy/Token.antt =====
-- endpoints.rs, `token`, from the decoded form on: which grant a request is for.
use ruprogress_mcp.Std.Map.{HashMap}
use ruprogress_mcp.OauthProxy.Crypto.{Crypto}
use ruprogress_mcp.Base.{
  Bytes, arith, bytes_beq_iff, bytes_eq, codes, if◌then◌else◌, none, some, ◌==◌, ◌≡◌, ◌≢◌,
}
use ruprogress_mcp.Std.Map
use ruprogress_mcp.OauthProxy.Flow.{Flow, error}
use ruprogress_mcp.OauthProxy.CodeGrant.{CodeGrantReads, authorization_code_grant}
use ruprogress_mcp.OauthProxy.RefreshGrant.{BeginReads, Begun, answered, begin}

-- A refresh is answered once Redmine has been asked; every other request at once.
unfoldable pub token :
    Crypto → Flow → HashMap Bytes Bytes → CodeGrantReads → BeginReads → Flow × Begun
token c f fields t u = elim (Map.get (codes "grant_type") fields) [
  | none ↦ (f, answered (error 400 (codes "invalid_request")))
  | some grant ↦
      if grant == codes "authorization_code"
      then (let (granted, response) = authorization_code_grant c f fields t in
          (granted, answered response))
      else if grant == codes "refresh_token"
      then begin c f fields u
      else (f, answered (error 400 (codes "unsupported_grant_type")))
]

-- A request whose grant type is neither of the two changes nothing.
pub token_unsupported :
    (c : Crypto) (f : Flow) (fields : HashMap Bytes Bytes) (t : CodeGrantReads) (u : BeginReads)
    (grant : Bytes)
    → Map.get (codes "grant_type") fields ≡ some grant
    → grant ≢ codes "authorization_code"
    → grant ≢ codes "refresh_token"
    → token c f fields t u ≡ (f, answered (error 400 (codes "unsupported_grant_type")))
unfolding token
token_unsupported c f fields t u grant there one two = ground (
  arith,
  there,
  bytes_beq_iff grant (codes "authorization_code"),
  bytes_beq_iff grant (codes "refresh_token"),
)
