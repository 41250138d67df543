-- ===== src/RedmineClient/Model.antt =====
-- model/introspection.rs and model/oauth_token.rs: what the OAuth endpoints of Redmine answer.
use ruprogress_mcp.Std.Text.{split_ascii_whitespace}
use ruprogress_mcp.Std.Int.{ℤ}
use ruprogress_mcp.Base.{Bool, Bytes, List, Option, [], bytes_eq, nat_eq, none, some, ℕ}

pub record Introspection : Type 0 where
  pub active : Bool
  pub scope : Option Bytes
  pub client_id : Option Bytes
  pub username : Option Bytes
  pub sub : Option Bytes
  pub exp : Option ℤ
  pub iat : Option ℤ
  pub token_type : Option Bytes

unfoldable pub scopes : Introspection → List Bytes
unfolding split_ascii_whitespace
scopes i = elim i.scope [ none ↦ [] | some s ↦ split_ascii_whitespace s ]

pub record OauthToken : Type 0 where
  pub access_token : Bytes
  pub refresh_token : Option Bytes
  pub expires_in : Option ℕ
  pub scope : Option Bytes
  pub token_type : Option Bytes
