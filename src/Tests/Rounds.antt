-- ===== src/Tests/Rounds.antt =====
-- /authorize and /auth/callback at concrete inputs. The toy URLs keep no query.
use ruprogress_mcp.OauthProxy.State.Sessions.{IsProxy}
use ruprogress_mcp.OauthProxy.Requests.Invariant.{handle_all-IsProxy}
use ruprogress_mcp.OauthProxy.Flow.{Flow}
use ruprogress_mcp.OauthProxy.Requests.{Request, handle_all, registers_client, revokes}
use ruprogress_mcp.Tests.Sessions.{register_reads}
use ruprogress_mcp.OauthProxy.Register.{RegisterRequest, register-created}
use ruprogress_mcp.OauthProxy.Register
use ruprogress_mcp.OauthProxy.State.{new, register_client}
use ruprogress_mcp.Std.Map
use ruprogress_mcp.OauthProxy.Registry
use ruprogress_mcp.OauthProxy.Transactions
use ruprogress_mcp.Tests.{proxy_state, reads, toy, access_key}
use ruprogress_mcp.Std.Map.{retain}
use ruprogress_mcp.Std.Clock.{from_secs}
use ruprogress_mcp.RedmineClient.Model.{OauthToken}
use ruprogress_mcp.OauthProxy.State.{ProxyState}
use ruprogress_mcp.OauthProxy.Registry.{Entry, ClientRegistration}
use ruprogress_mcp.OauthProxy.Pkce.{challenge_for}
use ruprogress_mcp.OauthProxy.Crypto.{digest}
use ruprogress_mcp.OauthProxy.Capacity.{expires_after, sweep_and_check_capacity}
use ruprogress_mcp.OauthProxy.Callback.Binding.{redeem-finish_callback}
use ruprogress_mcp.OauthProxy.Authorize.{goes_to, state_pair, trim_trailing_slash}
use ruprogress_mcp.Base.{
  [], arith, bytes_beq, bytes_eq, codes, none, refl, some, true, ◌++◌, ◌∷◌, ◌≡◌, all, List,
}
use ruprogress_mcp.OauthProxy.Codes
use ruprogress_mcp.OauthProxy.Codes.{RedeemOutcome}
use ruprogress_mcp.OauthProxy.Transactions.{Transaction}
use ruprogress_mcp.Std.Unicode.{split_whitespace}
use ruprogress_mcp.OauthProxy.Scopes.{narrow}
use ruprogress_mcp.OauthProxy.Authorize.{
  Site, AuthorizeQuery, AuthorizeReads, CallbackReads, CallbackQuery, authorize, redirect,
}
use ruprogress_mcp.OauthProxy.Callback.{finish_callback, upstream_set}

abbrev pub site : Site
site = record {
  permits = λ _. true;
  with_query = λ target _. some target;
  base_url = codes "https://m/";
  redmine_base = codes "https://r/";
  upstream_client_id = codes "up";
  advertised = codes "view_issues" ∷ [];
}

abbrev listed_client : Entry
listed_client = record {
  registration = record { client_id = 7 ∷ []; redirect_uris = (8 ∷ []) ∷ []; client_name = none };
  last_seen = from_secs 0;
}

abbrev pub round_state : ProxyState
round_state = record proxy_state { registry = (7 ∷ [], listed_client) ∷ [] }

abbrev pub round_query : AuthorizeQuery
round_query = record {
  response_type = some (codes "code");
  client_id = some (7 ∷ []);
  redirect_uri = some (8 ∷ []);
  scope = some (codes "view_issues");
  state = none;
  code_challenge = some (9 ∷ []);
  code_challenge_method = some (codes "S256");
}

abbrev pub round_reads : AuthorizeReads
round_reads = record {
  touch_at = from_secs 1;
  verifier_rng = some (51 ∷ []);
  transaction_rng = some (52 ∷ []);
  create_at = from_secs 1;
  end = reads 1;
}

sent_on :
    (authorize toy site round_state round_query round_reads).1
    ≡ redirect (codes "https://r/oauth/authorize")
unfolding authorize Registry.get Map.get bytes_beq split_whitespace narrow Transactions.create
    sweep_and_check_capacity retain
sent_on = refl

abbrev round : Transaction
round = record {
  client_id = 7 ∷ [];
  redirect_uri = 8 ∷ [];
  code_challenge = 9 ∷ [];
  scopes = [];
  client_state = none;
  upstream_code_verifier = 51 ∷ [];
}

abbrev round_token : OauthToken
round_token = record {
  access_token = 41 ∷ [];
  refresh_token = none;
  expires_in = some 7200;
  scope = none;
  token_type = none;
}

abbrev callback_reads : CallbackReads
callback_reads = record {
  expiry = reads 2;
  code_rng = some (53 ∷ []);
  mint_at = from_secs 2;
  end = reads 2;
}

redeem-finish_callback_example :
    ((finish_callback toy site round_state round (some round_token) callback_reads).1
      ≡ goes_to site
          (site.with_query (8 ∷ []) (
            (codes "code", codes "rup_ac_" ++ 53 ∷ [])
            ∷ (state_pair round.client_state
                ++ (codes "iss", trim_trailing_slash site.base_url) ∷ [])))
          (codes "stored redirect_uri is not a valid URL"))
    × ((Codes.redeem toy
          (finish_callback toy site round_state round (some round_token) callback_reads).0.codes
          (codes "rup_ac_" ++ 53 ∷ [])
          (7 ∷ [])
          (8 ∷ [])
          (9 ∷ [])
          (from_secs 3)
          (from_secs 3)).1
        ≡ RedeemOutcome.ok (upstream_set toy site round round_token callback_reads))
redeem-finish_callback_example =
    redeem-finish_callback toy site round_state round round_token callback_reads (53 ∷ []) (9 ∷ [])
      (from_secs 3) (from_secs 3) refl (unfold sweep_and_check_capacity retain digest in refl)
      (unfold challenge_for in refl) (unfold expires_after in omega arith)

abbrev waiting : ProxyState
waiting = record proxy_state { transactions = (52 ∷ [], (round, from_secs 600)) ∷ [] }

abbrev callback_query : CallbackQuery
callback_query = record {
  code = some (54 ∷ []);
  state = some (52 ∷ []);
  error = none;
  error_description = none;
}

abbrev payload : RegisterRequest
payload = record {
  redirect_uris = (8 ∷ []) ∷ [];
  client_name = none;
  grant_types = none;
  response_types = none;
  token_endpoint_auth_method = some (codes "none");
}

abbrev newcomer : ClientRegistration
newcomer = record { client_id = codes "ff"; redirect_uris = (8 ∷ []) ∷ []; client_name = none }

register-created_example :
    (Registry.get
        (Register.register site.permits proxy_state payload
          (some (255 ∷ []))
          register_reads).0.registry
        (codes "ff")
      ≡ some newcomer)
    × (newcomer.redirect_uris ≡ payload.redirect_uris)
    × (all site.permits newcomer.redirect_uris ≡ true)
register-created_example =
    register-created site.permits proxy_state payload (some (255 ∷ [])) register_reads newcomer
      (unfold Register.register register_client Registry.register bytes_beq in refl)

abbrev fresh_flow : Flow
fresh_flow = record { proxy = new; cache = []; revoked = []; spawned = [] }

abbrev requests : List Request
requests = registers_client payload (some (255 ∷ [])) register_reads ∷ revokes access_key ∷ []

handle_all-IsProxy_example :
    IsProxy (handle_all toy site (λ value. some value) fresh_flow requests).proxy
handle_all-IsProxy_example =
    handle_all-IsProxy toy site (λ value. some value) fresh_flow requests refl
