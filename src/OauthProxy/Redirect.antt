-- ===== src/OauthProxy/Redirect.antt =====
-- redirect.rs: the redirect-URI allowlist, its patterns and the floor below them.
pub mod Hosts
pub mod Spelling
pub mod Patterns
pub mod Floor
pub mod Open
use ruprogress_mcp.Std.Net.{parse_u16, parses_loopback}
use ruprogress_mcp.Std.Text.{
  ends_with, eq_ignore_ascii_case, split_once, split_once_at, starts_with, strip_prefix,
  strip_suffix, to_ascii_lowercase, trim_end_matches, trim_start_matches,
}
use ruprogress_mcp.Base.{
  Bool, Bytes, List, Option, Result, [], and_then, any, bytes_eq, codes, contains, err, false,
  if◌then◌else◌, is_empty, is_some, nat_eq, none, not, ok, ok_or, or_else, some, true, ℕ, ◌&&◌,
  ◌++◌, ◌==◌, ◌||◌, ◌∷◌,
}

pub data Host : Type 0 where
  exact : Bytes → Host
  suffix : Bytes → Host

pub data Port : Type 0 where
  any_port : Port
  exact_port : ℕ → Port

pub data PathMatch : Type 0 where
  exact_path : Bytes → PathMatch
  prefix_path : Bytes → PathMatch

pub record RedirectPattern : Type 0 where
  pub scheme : Bytes
  pub host : Host
  pub port : Port
  pub path : PathMatch

-- What the program reads of the url crate's `Url`.
pub record Url : Type 0 where
  pub url_scheme : Bytes
  pub username : Bytes
  pub password : Option Bytes
  pub host_str : Option Bytes
  pub port_or_known_default : Option ℕ
  pub url_path : Bytes
  pub fragment : Option Bytes

unfoldable pub default_port : Bytes → ℕ
default_port scheme = if scheme == codes "https" then 443 else 80

-- The refusals of `RedirectPattern::parse`, with the text that each message names.
pub data ParseError : Type 0 where
  no_scheme : Bytes → ParseError
  other_scheme : Bytes → ParseError
  has_userinfo : Bytes → ParseError
  has_query : Bytes → ParseError
  has_fragment : Bytes → ParseError
  no_host : Bytes → ParseError
  wildcard_host : Bytes → ParseError
  invalid_port : Bytes → Bytes → ParseError

-- The host of an authority, and its port if one is written.
unfoldable pub split_port : Bytes → Bytes × Option Bytes
unfolding split_once
split_port authority = elim (split_once b':' authority) [
  | some (host, port) ↦ (host, some port)
  | none ↦ (authority, none)
]

unfoldable pub split_path : Bytes → Bytes × Bytes
unfolding split_once
split_path rest = elim (split_once b'/' rest) [
  | some (authority, path) ↦ (authority, b'/' ∷ path)
  | none ↦ (rest, [])
]

unfoldable pub parse_host : Bytes → Bytes → Result Host ParseError
unfolding strip_prefix to_ascii_lowercase
parse_host raw host_part = elim (strip_prefix host_part (codes "*.")) [
  | some label ↦
      if is_empty label || contains label b'*'
      then err (wildcard_host raw)
      else ok (suffix (to_ascii_lowercase label))
  | none ↦
      if contains host_part b'*'
      then err (wildcard_host raw)
      else ok (exact (to_ascii_lowercase host_part))
]

unfoldable pub parse_port : Bytes → Bytes → Option Bytes → Result Port ParseError
unfolding default_port parse_u16
parse_port raw scheme none = ok (exact_port (default_port scheme))
parse_port raw scheme (some digits) =
    let read = ok_or (parse_u16 digits) (invalid_port raw digits) in
    if digits == codes "*" then ok any_port else and_then read (λ n. ok (exact_port n))

unfoldable pub parse_path : Bytes → PathMatch
unfolding strip_suffix
parse_path path = elim (strip_suffix path (codes "*")) [
  | none ↦ if is_empty path then prefix_path [] else exact_path path
  | some start ↦ prefix_path start
]

-- `parse` below the scheme.
unfoldable pub parse_rest : Bytes → Bytes → Bytes → Result RedirectPattern ParseError
unfolding split_path split_port parse_host parse_port parse_path
parse_rest raw scheme rest =
    if contains rest b'@'
    then err (has_userinfo raw)
    else if contains rest b'?'
    then err (has_query raw)
    else if contains rest b'#'
    then err (has_fragment raw)
    else let (authority, path) = split_path rest in
      let (host_part, port_part) = split_port authority in
      if is_empty authority
      then err (no_host raw)
      else and_then (parse_host raw host_part) (λ host.
        and_then (parse_port raw scheme port_part) (λ port.
          ok (record { scheme = scheme; host = host; port = port; path = parse_path path })))

unfoldable pub parse : Bytes → Result RedirectPattern ParseError
unfolding parse_rest split_once_at
parse raw = elim (split_once_at (codes "://") raw) [
  | none ↦ err (no_scheme raw)
  | some (scheme, rest) ↦
      if scheme == codes "http" || scheme == codes "https"
      then parse_rest raw scheme rest
      else err (other_scheme scheme)
]

unfoldable pub host_matches : Host → Bytes → Bool
unfolding strip_suffix ends_with
host_matches (exact name) host = host == name
host_matches (suffix name) host = elim (strip_suffix host name) [
  | none ↦ false
  | some start ↦ ends_with start b'.'
]

unfoldable pub port_matches : Port → Option ℕ → Bool
port_matches any_port port = true
port_matches (exact_port n) none = false
port_matches (exact_port n) (some port) = port == n

unfoldable pub path_matches : PathMatch → Bytes → Bool
unfolding starts_with
path_matches (exact_path name) path = path == name
path_matches (prefix_path start) path = starts_with path start

unfoldable pub matches : RedirectPattern → Url → Bool
unfolding host_matches port_matches path_matches to_ascii_lowercase
matches p url = if not (url.url_scheme == p.scheme) then false else elim url.host_str [
  | none ↦ false
  | some host ↦
      if not (host_matches p.host (to_ascii_lowercase host))
      then false
      else if not (port_matches p.port url.port_or_known_default)
      then false
      else path_matches p.path url.url_path
]

pub data RedirectPolicy : Type 0 where
  loopback : RedirectPolicy
  any_policy : RedirectPolicy
  patterns : List RedirectPattern → RedirectPolicy

abbrev pub loopback_pattern : Bytes → RedirectPattern
loopback_pattern name = record {
  scheme = codes "http";
  host = exact name;
  port = any_port;
  path = prefix_path [];
}

unfoldable pub loopback_patterns : List RedirectPattern
loopback_patterns = loopback_pattern (codes "localhost") ∷ loopback_pattern (codes "127.0.0.1") ∷ []

unfoldable pub is_loopback_host : Bytes → Bool
unfolding trim_start_matches trim_end_matches eq_ignore_ascii_case parses_loopback
is_loopback_host host =
    let bare = trim_end_matches b']' (trim_start_matches b'[' host) in
    eq_ignore_ascii_case bare (codes "localhost") || parses_loopback bare

-- `validate_floor` of a URL that was parsed.
unfoldable pub floor : Url → Option Url
unfolding is_loopback_host
floor url =
    if not (url.url_scheme == codes "http") && not (url.url_scheme == codes "https")
    then none
    else if not (is_empty url.username) || is_some url.password
    then none
    else if is_some url.fragment
    then none
    else elim url.host_str [
      | none ↦ none
      | some host ↦
          if url.url_scheme == codes "http" && not (is_loopback_host host) then none else some url
    ]

-- The url crate's `Url::parse` is the first argument.
unfoldable pub validate_floor : (Bytes → Option Url) → Bytes → Option Url
unfolding floor
validate_floor url_parse candidate = elim (url_parse candidate) [
  | none ↦ none
  | some url ↦ floor url
]

unfoldable pub allows : RedirectPolicy → Url → Bool
unfolding matches loopback_patterns
allows loopback url = any (λ p. matches p url) loopback_patterns
allows any_policy url = true
allows (patterns entries) url = any (λ p. matches p url) entries

unfoldable pub permits : (Bytes → Option Url) → RedirectPolicy → Bytes → Bool
unfolding validate_floor allows
permits url_parse policy candidate = elim (validate_floor url_parse candidate) [
  | none ↦ false
  | some url ↦ allows policy url
]
