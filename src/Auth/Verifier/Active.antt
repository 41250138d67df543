-- ===== src/Auth/Verifier/Active.antt =====
-- oauth.rs: a token that is let in was called active.
use ruprogress_mcp.OauthProxy.Crypto.{Crypto}
use ruprogress_mcp.Std.Map.{
  remove-Distinct, Distinct, contains_key, get-insert, get-remove, get-retain, len, retain,
}
use ruprogress_mcp.Std.Map
use ruprogress_mcp.Base.{bytes_eq, nat_eq}
