-- ===== src/OauthProxy/Redirect/Patterns.antt =====
-- redirect.rs: what a pattern that parses is spelled like.
use ruprogress_mcp.OauthProxy.Redirect.Spelling.{
  IsHostText, IsPortText, IsPathText, IsSpelled, parse_host_lem, parse_path_lem, port_text_of,
  split_port_lem, split_path_lem, parse_port_lem,
}
use ruprogress_mcp.OauthProxy.Redirect.{
  RedirectPattern, parse, parse_host, parse_path, parse_port, parse_rest, split_path, split_port,
}
use ruprogress_mcp.Std.Text.{split_once_at, split_once_at_lem}
use ruprogress_mcp.Base.{
  contains, false, is_empty, Bytes, Option-cases, Result-cases, [], arith, bytes_beq_iff, bytes_eq,
  codes, inl, inr, nat_eq, ok, refl, ◌++◌, ◌≡◌, ◌≢◌, ◌⊎◌, sym, subst, ap, ap₂, ◌∙◌, ok_transport,
}

-- What is below the scheme is the host's text, the port's and the path's.
pub record IsRest (rest : Bytes) (p : RedirectPattern) : Type 0 where
  pub below : Bytes × Bytes × Bytes
  pub below_whole : rest ≡ below.0 ++ below.1 ++ below.2
  pub below_host : IsHostText p.host below.0
  pub below_port : IsPortText p.scheme p.port below.1
  pub below_path : IsPathText p.path below.2
  pub below_named : below.0 ++ below.1 ≢ []

named_authority :
    (raw scheme rest : Bytes) (p : RedirectPattern)
    → parse_rest raw scheme rest ≡ ok p
    → (split_path rest).0 ≢ []
unfolding parse_rest
named_authority raw scheme rest p found unnamed = ground (arith, found, ap is_empty unnamed)

parse_rest-clean :
    (raw scheme rest : Bytes) (p : RedirectPattern)
    → parse_rest raw scheme rest ≡ ok p
    → (contains rest b'@' ≡ false) × (contains rest b'?' ≡ false) × (contains rest b'#' ≡ false)
unfolding parse_rest
parse_rest-clean raw scheme rest p found = ground (arith, found)

parse_rest_lem :
    (raw scheme rest : Bytes) (p : RedirectPattern)
    → parse_rest raw scheme rest ≡ ok p
    → (p.scheme ≡ scheme) × IsRest rest p
unfolding parse_rest
parse_rest_lem raw scheme rest p found =
    let (authority, path) = split_path rest in
    let (host_part, port_part) = split_port authority in
    elim (Result-cases (parse_host raw host_part)) [
      | inr (e, bad) ↦ ground (arith, found, bad)
      | inl (host, is_host) ↦ elim (Result-cases (parse_port raw scheme port_part)) [
        | inr (e, bad) ↦ ground (arith, found, is_host, bad)
        | inl (port, is_port) ↦
            ok_transport (λ q. (q.scheme ≡ scheme) × IsRest rest q)
              (record { scheme = scheme; host = host; port = port; path = parse_path path }) p
              (parse_rest raw scheme rest) (ground (arith, found, is_host, is_port)) found
              (
                refl,
                record {
                  below = (host_part, port_text_of port_part, path);
                  below_whole =
                      split_path_lem rest ∙ ap (λ x. x ++ path) (split_port_lem authority);
                  below_host = parse_host_lem raw host_part host is_host;
                  below_port = parse_port_lem raw scheme port_part port is_port;
                  below_path = parse_path_lem path;
                  below_named =
                      λ h. named_authority raw scheme rest p found (split_port_lem authority ∙ h);
                },
              )
      ]
    ]

-- A pattern that parses is spelled as a web scheme, a host, a port and a path: the host's text is
-- its name, or a leading "*." and the name below it, in either case of letters and without another
-- "*"; the port's text is ":*", a number up to 65535 after a colon, or nothing for the scheme's
-- default; and the path's text ends in "*" for a prefix, is exact and does not end in one, or
-- allows every path when there is none. Host and port are not both empty, and below the scheme
-- there is no "@", "?" or "#".
pub parse-IsSpelled : (raw : Bytes) (p : RedirectPattern) → parse raw ≡ ok p → IsSpelled raw p
unfolding parse
parse-IsSpelled raw p found = elim (Option-cases (split_once_at (codes "://") raw)) [
  | inl missing ↦ ground (arith, found, missing)
  | inr ((scheme, rest), cut) ↦
      let (same, r) = parse_rest_lem raw scheme rest p (ground (arith, found, cut)) in
      let clean = parse_rest-clean raw scheme rest p (ground (arith, found, cut)) in
      let web : (scheme ≡ codes "http") ⊎ (scheme ≡ codes "https") = ground (
        arith,
        found,
        cut,
        bytes_beq_iff scheme (codes "http"),
        bytes_beq_iff scheme (codes "https"),
      ) in
      record {
        host_text = r.below.0;
        port_text = r.below.1;
        path_text = r.below.2;
        whole =
            split_once_at_lem (codes "://") raw scheme rest cut
            ∙ ap₂ (λ x y. x ++ codes "://" ++ y) (sym same) r.below_whole;
        web = subst (λ x. (x ≡ codes "http") ⊎ (x ≡ codes "https")) (sym same) web;
        is_host = r.below_host;
        is_port = r.below_port;
        is_path = r.below_path;
        named = r.below_named;
        no_userinfo = subst (λ x. contains x b'@' ≡ false) r.below_whole clean.0;
        no_query = subst (λ x. contains x b'?' ≡ false) r.below_whole clean.1;
        no_fragment = subst (λ x. contains x b'#' ≡ false) r.below_whole clean.2;
      }
]
