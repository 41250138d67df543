-- ===== src/Tests/Redirect.antt =====
-- Redirect URIs and patterns.
use ruprogress_mcp.Tests.{toy}
use ruprogress_mcp.Tests.Rounds.{round_query, round_reads, round_state, site}
use ruprogress_mcp.OauthProxy.Authorize.{Site, authorize, redirect}
use ruprogress_mcp.OauthProxy.Authorize.Redirects.{LeadsTo, endpoint}
use ruprogress_mcp.OauthProxy.Redirect.{
  Url, RedirectPattern, any_port, exact, exact_port, host_matches, is_loopback_host, loopback,
  parse, permits, prefix_path, suffix,
}
use ruprogress_mcp.OauthProxy.Redirect.Floor.{IsAllowed, IsFloor, permits_iff}
use ruprogress_mcp.OauthProxy.Redirect.Open.{IsSafe, authorize-IsSafe}
use ruprogress_mcp.OauthProxy.Redirect.Spelling.{IsSpelled}
use ruprogress_mcp.OauthProxy.Redirect.Patterns.{parse-IsSpelled}
use ruprogress_mcp.Base.{
  Bytes, Option, [], bytes_beq, bytes_eq, codes, false, if◌then◌else◌, none, ok, refl, some, true,
  ◌==◌, ◌↔◌, ◌∷◌, ◌≡◌, ◌⊎◌,
}

abbrev local_url : Url
local_url = record {
  url_scheme = codes "http";
  username = [];
  password = none;
  host_str = some (codes "127.0.0.1");
  port_or_known_default = some 3000;
  url_path = codes "/cb";
  fragment = none;
}

-- A parser that knows one URL.
abbrev one_url : Bytes → Option Url
one_url text = if text == 8 ∷ [] then some local_url else none

permits_iff_example :
    (permits one_url loopback (8 ∷ []) ≡ true)
    ↔ ((url : Url) × (one_url (8 ∷ []) ≡ some url) × IsFloor url × IsAllowed loopback url)
permits_iff_example = permits_iff one_url loopback (8 ∷ [])

-- The host is loopback by its address, and an apex or a name that only ends alike is not covered.
loopback_address : is_loopback_host (codes "127.0.0.1") ≡ true
unfolding is_loopback_host bytes_beq
loopback_address = refl

loopback_v6 : is_loopback_host (codes "[::1]") ≡ true
unfolding is_loopback_host bytes_beq
loopback_v6 = refl

other_v6 : is_loopback_host (codes "[::2]") ≡ false
unfolding is_loopback_host bytes_beq
other_v6 = refl

apex : host_matches (suffix (codes "example.com")) (codes "example.com") ≡ false
unfolding host_matches bytes_beq
apex = refl

abbrev wild : RedirectPattern
wild = record {
  scheme = codes "https";
  host = suffix (codes "a.b");
  port = any_port;
  path = prefix_path (codes "/cb");
}

parsed_wild : parse (codes "https://*.A.b:*/cb*") ≡ ok wild
unfolding parse bytes_beq
parsed_wild = refl

parse-IsSpelled_example : IsSpelled (codes "https://*.A.b:*/cb*") wild
parse-IsSpelled_example = parse-IsSpelled (codes "https://*.A.b:*/cb*") wild parsed_wild

-- A pattern without a host is taken when it has a port.
hostless :
    parse (codes "https://:443")
    ≡ ok (record {
      scheme = codes "https";
      host = exact [];
      port = exact_port 443;
      path = prefix_path [];
    })
unfolding parse bytes_beq
hostless = refl

abbrev guarded : Site
guarded = record site { permits = permits one_url loopback }

sent_guarded :
    (authorize toy guarded round_state round_query round_reads).1
    ≡ redirect (codes "https://r/oauth/authorize")
unfolding authorize permits ruprogress_mcp.OauthProxy.Registry.get ruprogress_mcp.Std.Map.get
    bytes_beq ruprogress_mcp.Std.Unicode.split_whitespace ruprogress_mcp.OauthProxy.Scopes.narrow
    ruprogress_mcp.OauthProxy.Transactions.create
    ruprogress_mcp.OauthProxy.Capacity.sweep_and_check_capacity ruprogress_mcp.Std.Map.retain
sent_guarded = refl

authorize-IsSafe_example :
    (LeadsTo guarded (codes "https://r/oauth/authorize") (endpoint guarded))
    ⊎ ((redirect_uri : Bytes) × IsSafe guarded round_state one_url loopback redirect_uri
        × LeadsTo guarded (codes "https://r/oauth/authorize") redirect_uri)
authorize-IsSafe_example =
    authorize-IsSafe toy guarded one_url loopback round_state round_query round_reads
      (codes "https://r/oauth/authorize") (λ uri. refl) sent_guarded
