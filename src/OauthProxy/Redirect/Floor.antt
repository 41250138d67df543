-- ===== src/OauthProxy/Redirect/Floor.antt =====
-- redirect.rs: what the floor demands of every redirect URI, and what each policy adds.
use ruprogress_mcp.OauthProxy.Redirect.{
  RedirectPattern, RedirectPolicy, Url, allows, any_policy, floor, host_matches, is_loopback_host,
  loopback, loopback_pattern, loopback_patterns, matches, path_matches, patterns, permits,
  port_matches, validate_floor,
}
use ruprogress_mcp.Std.Text.{starts_with, to_ascii_lowercase}
use ruprogress_mcp.Base.{
  Bool-cases, Bytes, List, Option, Option-cases, [], any, arith, ◌++◌, bytes_beq_iff, bytes_eq,
  codes, inl, inr, is_empty, is_some, none, refl, some, true, false, ◌∷◌, ◌↔◌, ◌≡◌, ◌⊎◌, subst, sym,
  ap, ◌==◌,
}

-- An absolute URL of the web without user, password and fragment, and a loopback one unless it is
-- https.
pub record IsFloor (url : Url) : Type 0 where
  pub web : (url.url_scheme ≡ codes "https") ⊎ (url.url_scheme ≡ codes "http")
  pub no_username : url.username ≡ []
  pub no_password : url.password ≡ none
  pub no_fragment : url.fragment ≡ none
  pub host : Bytes
  pub has_host : url.host_str ≡ some host
  pub local_http : (url.url_scheme ≡ codes "https") ⊎ (is_loopback_host host ≡ true)

-- What a policy asks beyond the floor.
abbrev pub IsAllowed : RedirectPolicy → Url → Type 0
IsAllowed loopback url =
    (url.url_scheme ≡ codes "http")
    × ((host : Bytes) × (url.host_str ≡ some host)
        × ((to_ascii_lowercase host ≡ codes "localhost")
            ⊎ (to_ascii_lowercase host ≡ codes "127.0.0.1")))
IsAllowed any_policy url = Unit
IsAllowed (patterns entries) url =
    (before : List RedirectPattern) × (p : RedirectPattern) × (after : List RedirectPattern)
    × (entries ≡ before ++ p ∷ after)
    × (matches p url ≡ true)

is_empty_iff : (text : Bytes) → (is_empty text ≡ true) ↔ (text ≡ [])
is_empty_iff [] = ground arith
is_empty_iff (b ∷ bs) = ground arith

not_some : (o : Option Bytes) → is_some o ≡ false → o ≡ none
not_some none h = refl
not_some (some a) h = ground arith

module _ (url : Url) where
  is_http : (url.url_scheme == codes "http" ≡ true) ↔ (url.url_scheme ≡ codes "http")
  is_http = bytes_beq_iff url.url_scheme (codes "http")

  is_https : (url.url_scheme == codes "https" ≡ true) ↔ (url.url_scheme ≡ codes "https")
  is_https = bytes_beq_iff url.url_scheme (codes "https")

  floor-some : (accepted : Url) → floor url ≡ some accepted → (accepted ≡ url) × IsFloor url
  unfolding floor
  floor-some accepted h = elim (Option-cases url.host_str) [
    | inl missing ↦ ground (arith, h, missing)
    | inr (host, found) ↦ (
      ground (arith, h, found),
      record {
        web = ground (arith, h, found, is_http, is_https);
        no_username = ground (arith, h, found, is_empty_iff url.username);
        no_password = not_some url.password (ground (arith, h, found));
        no_fragment = not_some url.fragment (ground (arith, h, found));
        host = host;
        has_host = found;
        local_http = ground (arith, h, found, is_http, is_https);
      },
    )
  ]

  floor-IsFloor : IsFloor url → floor url ≡ some url
  unfolding floor
  floor-IsFloor f = ground (
    arith, is_http, is_https, f.web, f.no_username, f.no_password, f.no_fragment, f.has_host,
    f.local_http,
  )

  any-split :
      (entries : List RedirectPattern)
      → any (λ p. matches p url) entries ≡ true
      → IsAllowed (patterns entries) url
  any-split [] h = ground arith
  any-split (p ∷ entries) h = elim (Bool-cases (matches p url)) [
    | inl here ↦ ([], p, entries, refl, here)
    | inr other ↦
        let (before, q, after, same, found) = any-split entries (ground (arith, h, other)) in
        (p ∷ before, q, after, ap (λ xs. p ∷ xs) same, found)
  ]

  any-append :
      (p : RedirectPattern) (before after : List RedirectPattern)
      → matches p url ≡ true
      → any (λ q. matches q url) (before ++ p ∷ after) ≡ true
  any-append p [] after h = ground (arith, h)
  any-append p (q ∷ before) after h = ground (arith, any-append p before after h)

  loopback_pattern_iff :
      (name : Bytes)
      → (matches (loopback_pattern name) url ≡ true) ↔ (
          (url.url_scheme ≡ codes "http")
          × ((host : Bytes) × (url.host_str ≡ some host) × (to_ascii_lowercase host ≡ name)))
  unfolding matches host_matches port_matches path_matches starts_with
  loopback_pattern_iff name = elim (Option-cases url.host_str) [
    | inl missing ↦ ground (arith, missing, is_http)
    | inr (host, found) ↦ (
      λ h. (
        ground (arith, h, found, is_http),
        (host, found, ground (arith, h, found, bytes_beq_iff (to_ascii_lowercase host) name)),
      ),
      λ e.
          ground (
            arith,
            found,
            is_http,
            e.0,
            e.1.1,
            e.1.2,
            bytes_beq_iff (to_ascii_lowercase host) name,
          ),
    )
  ]

  allows_iff : (policy : RedirectPolicy) → (allows policy url ≡ true) ↔ IsAllowed policy url
  unfolding allows loopback_patterns
  allows_iff loopback = (
    λ h. elim (Bool-cases (matches (loopback_pattern (codes "localhost")) url)) [
      | inl by_name ↦
          let (http, (host, found, same)) = (loopback_pattern_iff (codes "localhost")).0 by_name in
          (http, (host, found, inl same))
      | inr other ↦
          let (http, (host, found, same)) =
            (loopback_pattern_iff (codes "127.0.0.1")).0 (ground (arith, h, other)) in
          (http, (host, found, inr same))
    ],
    λ e. elim e.1.2 [
      | inl same ↦
          ground (arith, (loopback_pattern_iff (codes "localhost")).1 (e.0, (e.1.0, e.1.1, same)))
      | inr same ↦
          ground (arith, (loopback_pattern_iff (codes "127.0.0.1")).1 (e.0, (e.1.0, e.1.1, same)))
    ],
  )
  allows_iff any_policy = (λ h. tt, λ u. refl)
  allows_iff (patterns entries) = (
    any-split entries,
    λ a.
        (let (before, p, after, same, found) = a in
          subst (λ xs. any (λ q. matches q url) xs ≡ true) (sym same)
            (any-append p before after found)),
  )

-- A redirect URI is permitted exactly when it parses to a URL that meets the floor whatever the
-- policy is (http or https, no user, no password, no fragment, a host, and a loopback host unless
-- it is https) and the policy allows it: under the loopback policy, http to a host named
-- localhost or 127.0.0.1; under the policy "*", nothing more; under a list, a pattern of the list
-- that matches.
pub permits_iff :
    (url_parse : Bytes → Option Url) (policy : RedirectPolicy) (candidate : Bytes)
    → (permits url_parse policy candidate ≡ true)
      ↔ ((url : Url) × (url_parse candidate ≡ some url) × IsFloor url × IsAllowed policy url)
unfolding permits validate_floor
permits_iff url_parse policy candidate = elim (Option-cases (url_parse candidate)) [
  | inl missing ↦ ground (arith, missing)
  | inr (url, found) ↦ elim (Option-cases (floor url)) [
    | inl below ↦ (
      λ h. ground (arith, h, found, below),
      λ e. ground (arith, found, below, e.1, floor-IsFloor e.0 e.2, ap floor),
    )
    | inr (accepted, kept) ↦ (
      λ h. (
        url,
        found,
        (floor-some url accepted kept).1,
        (allows_iff url policy).0
            (ground (arith, h, found, kept, (floor-some url accepted kept).0)),
      ),
      λ e. ground (
        arith,
        found,
        kept,
        e.1,
        (floor-some url accepted kept).0,
        (allows_iff e.0 policy).1 e.3,
      ),
    )
  ]
]
