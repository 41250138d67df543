-- ===== src/OauthProxy/Redirect/Hosts.antt =====
-- redirect.rs: which hosts a pattern covers.
use ruprogress_mcp.OauthProxy.Redirect.{host_matches, suffix}
use ruprogress_mcp.Std.Text.{
  ends_with-append, ends_with-split, strip_suffix, strip_suffix-append, strip_suffix_lem,
}
use ruprogress_mcp.Base.{
  Bytes, Option-cases, [], arith, bytes_eq, inl, inr, nat_eq, refl, some, true, ◌++◌, ◌↔◌, ◌∷◌, ◌≡◌,
  subst, ap, ◌∙◌,
}

append-dot : (labels name : Bytes) → (labels ++ b'.' ∷ []) ++ name ≡ labels ++ b'.' ∷ name
append-dot [] name = refl
append-dot (l ∷ labels) name = ap (λ x. l ∷ x) (append-dot labels name)

covers :
    (name labels : Bytes) → strip_suffix (labels ++ b'.' ∷ name) name ≡ some (labels ++ b'.' ∷ [])
covers name labels =
    subst (λ x. strip_suffix x name ≡ some (labels ++ b'.' ∷ [])) (append-dot labels name)
      (strip_suffix-append (labels ++ b'.' ∷ []) name)

-- A wildcard host covers exactly the names with one or more labels before its suffix: there is a
-- text before the dot, which may hold dots itself, and neither the suffix alone nor a name that
-- merely ends in it is covered.
pub host_matches-suffix_iff :
    (name host : Bytes)
    → (host_matches (suffix name) host ≡ true) ↔ ((labels : Bytes) × (host ≡ labels ++ b'.' ∷ name))
unfolding host_matches
host_matches-suffix_iff name host = elim (Option-cases (strip_suffix host name)) [
  | inl missing ↦ (
    λ h. ground (arith, h, missing),
    λ e. ground (arith, missing, covers name e.0, ap (λ x. strip_suffix x name) e.1),
  )
  | inr (start, found) ↦ (
    λ h.
        (let (labels, dotted) = ends_with-split start b'.' (ground (arith, h, found)) in
          (
            labels,
            strip_suffix_lem host name start found
                ∙ ap (λ x. x ++ name) dotted
                ∙ append-dot labels name,
          )),
    λ e. ground (
      arith,
      found,
      covers name e.0,
      ap (λ x. strip_suffix x name) e.1,
      ends_with-append e.0 b'.',
    ),
  )
]
