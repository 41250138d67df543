-- ===== src/Auth/Verifier/Calls.antt =====
-- oauth.rs: a history of calls of the verifier, and what stands behind the contexts in its cache.
use ruprogress_mcp.Auth.Verifier.{
  AuthContext, Cache, CachedEntry, Refusal, VerifyReads, valid, verify,
}
use ruprogress_mcp.OauthProxy.Crypto.{Crypto, digest}
use ruprogress_mcp.RedmineClient.Model.{Introspection, scopes}
use ruprogress_mcp.Std.Clock.{Duration, Instant}
use ruprogress_mcp.Std.Map.{
  remove-Distinct, Distinct, contains_key, get-insert, get-remove, get-retain, len, retain,
}
use ruprogress_mcp.Std.Map
use ruprogress_mcp.Base.{
  Bytes, List, Result, [], bytes_eq, nat_eq, ok, some, true, ◌+◌, ◌∷◌, ◌≡◌, ◌≤◌, ◌⊎◌,
}

-- A call of the verifier: the token, what Redmine would answer, and the reads of the clocks.
pub record Call : Type 0 where
  pub token : Bytes
  pub answer : Result Introspection Refusal
  pub reads : VerifyReads

-- The cache after a history of calls, the last of which comes first.
unfoldable pub after_calls : Crypto → Duration → List Call → Cache
unfolding verify
after_calls c ttl [] = []
after_calls c ttl (k ∷ calls) = (verify c ttl (after_calls c ttl calls) k.token k.answer k.reads).0

-- One of the calls has a property.
abbrev pub Some : (Call → Type 0) → List Call → Type 0
Some P [] = ⊥
Some P (k ∷ calls) = P k ⊎ Some P calls

-- The call asked Redmine about a token with the digest, and the answer was that it is active; the
-- context is what that answer says.
pub record IsAnswered (key : Bytes) (c : Crypto) (context : AuthContext) (k : Call) : Type 0 where
  pub introspection : Introspection
  pub same_digest : digest c k.token ≡ key
  pub answered : k.answer ≡ ok introspection
  pub active : introspection.active ≡ true
  pub same_token : context.token ≡ k.token
  pub same_scopes : context.scopes ≡ scopes introspection
  pub same_end : context.expires_at ≡ introspection.exp

abbrev pub IsBacked : Crypto → Duration → Bytes → AuthContext → Instant → Call → Type 0
IsBacked c ttl key context until k = IsAnswered key c context k × (until ≤ k.reads.put_at + ttl)

-- Every context in the cache goes back to a call.
abbrev pub IsSound : Crypto → Duration → List Call → Cache → Type 0
IsSound c ttl calls cache =
    (key : Bytes) (entry : CachedEntry) (context : AuthContext)
    → Map.get key cache ≡ some entry
    → entry.value ≡ valid context
    → Some (IsBacked c ttl key context entry.expires_at) calls
