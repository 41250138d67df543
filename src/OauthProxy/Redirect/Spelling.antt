-- ===== src/OauthProxy/Redirect/Spelling.antt =====
-- redirect.rs: what the parts of a pattern that parses are spelled like.
use ruprogress_mcp.OauthProxy.Redirect.{
  Host, PathMatch, Port, RedirectPattern, any_port, default_port, exact, exact_path, exact_port,
  parse_host, parse_path, parse_port, prefix_path, split_path, split_port, suffix,
}
use mathlib.Core.List.{append-nil}
use ruprogress_mcp.Std.Net.{parse_u16}
use ruprogress_mcp.Std.Text.{
  split_once, split_once_lem, strip_prefix, strip_prefix_iff, strip_suffix, strip_suffix-append,
  strip_suffix_lem, to_ascii_lowercase,
}
use ruprogress_mcp.Base.{
  contains, false, Bool-cases, Bytes, Option, Option-cases, [], arith, bytes_beq_iff, bytes_eq,
  codes, inl, inr, nat_eq, none, ok, refl, some, ◌++◌, ◌==◌, ◌∷◌, ◌≡◌, ◌≢◌, ◌⊎◌, subst, ap,
  ok_transport,
}

-- The text of an authority that a host and a port are read from.
abbrev pub IsHostText : Host → Bytes → Type 0
IsHostText (exact name) text = (to_ascii_lowercase text ≡ name) × (contains text b'*' ≡ false)
IsHostText (suffix name) text =
    (label : Bytes) × (text ≡ codes "*." ++ label)
    × (to_ascii_lowercase label ≡ name)
    × (label ≢ [])
    × (contains label b'*' ≡ false)

abbrev pub IsPortText : Bytes → Port → Bytes → Type 0
IsPortText scheme any_port text = text ≡ codes ":*"
IsPortText scheme (exact_port n) text =
    ((text ≡ []) × (n ≡ default_port scheme))
    ⊎ ((digits : Bytes) × (text ≡ b':' ∷ digits) × (parse_u16 digits ≡ some n))

abbrev pub IsPathText : PathMatch → Bytes → Type 0
IsPathText (exact_path name) text =
    (text ≡ name) × (name ≢ []) × ((start : Bytes) → text ≢ start ++ codes "*")
IsPathText (prefix_path start) text = (text ≡ start ++ codes "*") ⊎ ((text ≡ []) × (start ≡ []))

pub record IsSpelled (raw : Bytes) (p : RedirectPattern) : Type 0 where
  pub host_text : Bytes
  pub port_text : Bytes
  pub path_text : Bytes
  pub whole : raw ≡ p.scheme ++ codes "://" ++ (host_text ++ port_text ++ path_text)
  pub web : (p.scheme ≡ codes "http") ⊎ (p.scheme ≡ codes "https")
  pub is_host : IsHostText p.host host_text
  pub is_port : IsPortText p.scheme p.port port_text
  pub is_path : IsPathText p.path path_text
  pub named : host_text ++ port_text ≢ []
  pub no_userinfo : contains (host_text ++ port_text ++ path_text) b'@' ≡ false
  pub no_query : contains (host_text ++ port_text ++ path_text) b'?' ≡ false
  pub no_fragment : contains (host_text ++ port_text ++ path_text) b'#' ≡ false

pub parse_host_lem : (raw text : Bytes) (h : Host) → parse_host raw text ≡ ok h → IsHostText h text
unfolding parse_host
parse_host_lem raw text h found = elim (Option-cases (strip_prefix text (codes "*."))) [
  | inl plain ↦
      ok_transport (λ x. IsHostText x text) (exact (to_ascii_lowercase text)) h
        (parse_host raw text) (ground (arith, found, plain)) found
        (refl, ground (arith, found, plain))
  | inr (label, star) ↦
      ok_transport (λ x. IsHostText x text) (suffix (to_ascii_lowercase label)) h
        (parse_host raw text) (ground (arith, found, star)) found
        (
          label,
          (strip_prefix_iff text (codes "*.") label).0 star,
          refl,
          ground (arith, found, star),
          ground (arith, found, star),
        )
]

pub parse_port-none :
    (raw scheme : Bytes) (p : Port) → parse_port raw scheme none ≡ ok p → IsPortText scheme p []
unfolding parse_port
parse_port-none raw scheme p found =
    ok_transport (λ x. IsPortText scheme x []) (exact_port (default_port scheme)) p
      (parse_port raw scheme none) (ground (arith, found)) found (inl (refl, refl))

pub parse_port-some :
    (raw scheme digits : Bytes) (p : Port)
    → parse_port raw scheme (some digits) ≡ ok p
    → IsPortText scheme p (b':' ∷ digits)
unfolding parse_port
parse_port-some raw scheme digits p found = elim (Bool-cases (digits == codes "*")) [
  | inl star ↦
      ok_transport (λ x. IsPortText scheme x (b':' ∷ digits)) any_port p
        (parse_port raw scheme (some digits)) (ground (arith, found, star)) found
        (ap (λ x. b':' ∷ x) ((bytes_beq_iff digits (codes "*")).0 star))
  | inr plain ↦ elim (Option-cases (parse_u16 digits)) [
    | inl bad ↦ ground (arith, found, plain, bad)
    | inr (n, read) ↦
        ok_transport (λ x. IsPortText scheme x (b':' ∷ digits)) (exact_port n) p
          (parse_port raw scheme (some digits)) (ground (arith, found, plain, read)) found
          (inr (digits, refl, read))
  ]
]

pub not_starred :
    (text : Bytes)
    → strip_suffix text (codes "*") ≡ none
    → (start : Bytes) → text ≢ start ++ codes "*"
not_starred text missing start same = ground (
  arith,
  missing,
  ap (λ x. strip_suffix x (codes "*")) same,
  strip_suffix-append start (codes "*"),
)

pub plain_path :
    (text : Bytes) → strip_suffix text (codes "*") ≡ none → IsPathText (parse_path text) text
unfolding parse_path
plain_path [] missing =
    subst (λ x. IsPathText x []) {x = prefix_path []} {y = parse_path []} (ground (arith, missing))
      (inr (refl, refl))
plain_path (b ∷ bs) missing =
    subst (λ x. IsPathText x (b ∷ bs)) {x = exact_path (b ∷ bs)} {y = parse_path (b ∷ bs)}
      (ground (arith, missing)) (refl, (λ h. ground (arith, h)), not_starred (b ∷ bs) missing)

pub parse_path_lem : (text : Bytes) → IsPathText (parse_path text) text
unfolding parse_path
parse_path_lem text = elim (Option-cases (strip_suffix text (codes "*"))) [
  | inr (start, found) ↦
      subst (λ x. IsPathText x text) {x = prefix_path start} {y = parse_path text}
        (ground (arith, found)) (inl (strip_suffix_lem text (codes "*") start found))
  | inl missing ↦ plain_path text missing
]

-- The port's text, with its colon.
abbrev pub port_text_of : Option Bytes → Bytes
port_text_of none = []
port_text_of (some digits) = b':' ∷ digits

pub split_port_lem :
    (authority : Bytes)
    → authority ≡ (split_port authority).0 ++ port_text_of (split_port authority).1
unfolding split_port
split_port_lem authority = elim (Option-cases (split_once b':' authority)) [
  | inl missing ↦ ground (arith, missing, append-nil authority)
  | inr ((host, port), found) ↦ ground (arith, found, split_once_lem b':' authority host port found)
]

pub split_path_lem : (rest : Bytes) → rest ≡ (split_path rest).0 ++ (split_path rest).1
unfolding split_path
split_path_lem rest = elim (Option-cases (split_once b'/' rest)) [
  | inl missing ↦ ground (arith, missing, append-nil rest)
  | inr ((authority, path), found) ↦
      ground (arith, found, split_once_lem b'/' rest authority path found)
]

pub parse_port_lem :
    (raw scheme : Bytes) (written : Option Bytes) (p : Port)
    → parse_port raw scheme written ≡ ok p
    → IsPortText scheme p (port_text_of written)
parse_port_lem raw scheme none p found = parse_port-none raw scheme p found
parse_port_lem raw scheme (some digits) p found = parse_port-some raw scheme digits p found
