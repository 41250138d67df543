-- ===== src/Auth/Scope/Enforced.antt =====
-- auth/scope.rs: the gate and the listing agree, and more scopes never lose a tool.
use ruprogress_mcp.Auth.ScopeRule.{
  ScopeRule, any_of_rule, create_issue_base, fixed, per_action, tag_list_scopes, tool_scopes,
  update_issue_base, update_issue_notes_only,
}
use ruprogress_mcp.Auth.Scope.{
  Gate, JsonObject, Requirement, action_str, admin_scope, any_held, any_of,
  create_redmine_issue_requirement, for_action, gate, gate_all, gate_any, gate_requirement,
  has_agile_field, has_tag_list, is_admin, is_notes_only_update, is_reparenting, missing, proceed,
  required_for_call, rule_requirement, rule_visible, scopes, scopes_with_any_of, unchecked,
  unmapped, update_base, update_redmine_issue_requirement, visible_for,
}
use ruprogress_mcp.Std.Map as Map
use ruprogress_mcp.Base.{
  Bool-cases, Bytes, List, Option, Option-cases, [], all, any, arith, bytes_beq, bytes_beq_iff,
  bytes_eq, codes, contains, inl, inr, is_empty, none, refl, some, subst, sym, true, ◌==◌, ◌||◌,
  ◌∷◌, ◌≡◌, ◌≢◌, ap, ◌∙◌,
}

is_empty-missing :
    (required held : List Bytes)
    → is_empty (missing required held) ≡ all (λ s. contains held s) required
unfolding missing
is_empty-missing [] held = refl
is_empty-missing (s ∷ required) held = elim (Bool-cases (contains held s)) [
  | inl here ↦ rw (missing, here) (is_empty-missing required held)
  | inr lacking ↦ rw (missing, lacking) refl
]

gate_all-proceed :
    (required held : List Bytes) (next : Gate)
    → gate_all required held next ≡ proceed
    → (all (λ s. contains held s) required ≡ true) × (next ≡ proceed)
unfolding gate_all
gate_all-proceed required held next h = ground (arith, h, is_empty-missing required held)

pub gate_all-all :
    (required held : List Bytes) (next : Gate)
    → all (λ s. contains held s) required ≡ true
    → gate_all required held next ≡ next
unfolding gate_all
gate_all-all required held next h = ground (arith, h, is_empty-missing required held)

gate_any-proceed :
    (candidates held : List Bytes)
    → gate_any candidates held ≡ proceed
    → any_held candidates held ≡ true
unfolding gate_any
gate_any-proceed candidates held h = ground (arith, h)

pub gate_any-any :
    (candidates held : List Bytes)
    → any_held candidates held ≡ true
    → gate_any candidates held ≡ proceed
unfolding gate_any
gate_any-any candidates held h = ground (arith, h)

-- A token with the scopes of another and perhaps more.
abbrev pub IsWider : List Bytes → List Bytes → Type 0
IsWider held wider = (s : Bytes) → contains held s ≡ true → contains wider s ≡ true

module _ (held wider : List Bytes) (w : IsWider held wider) where
  all-wider :
      (required : List Bytes)
      → all (λ s. contains held s) required ≡ true
      → all (λ s. contains wider s) required ≡ true
  all-wider [] h = refl
  all-wider (s ∷ required) h = ground (arith, h, w s, all-wider required)

  any_held-wider :
      (candidates : List Bytes) → any_held candidates held ≡ true → any_held candidates wider ≡ true
  unfolding any_held
  any_held-wider [] h = ground (arith, h)
  any_held-wider (s ∷ candidates) h = ground (arith, h, w s, any_held-wider candidates)

  gate_requirement-wider :
      (r : Requirement) → gate_requirement r held ≡ proceed → gate_requirement r wider ≡ proceed
  unfolding gate_requirement
  gate_requirement-wider unchecked h = refl
  gate_requirement-wider (scopes required) h =
      gate_all-all required wider proceed
        (all-wider required (gate_all-proceed required held proceed h).0)
  gate_requirement-wider (any_of candidates) h =
      gate_any-any candidates wider (any_held-wider candidates (gate_any-proceed candidates held h))
  gate_requirement-wider (scopes_with_any_of required candidates) h =
      let (all_held, some_held) = gate_all-proceed required held (gate_any candidates held) h in
      gate_all-all required wider (gate_any candidates wider) (all-wider required all_held)
      ∙ gate_any-any candidates wider
          (any_held-wider candidates (gate_any-proceed candidates held some_held))
  gate_requirement-wider unmapped h = absurd (ground (arith, h))

-- A call that the gate lets through for a token is let through for every token with more scopes.
pub gate-wider :
    (held wider : List Bytes) (tool : Bytes) (args : Option JsonObject)
    → IsWider held wider
    → gate held tool args ≡ proceed
    → gate wider tool args ≡ proceed
unfolding gate is_admin
gate-wider held wider tool args w h = elim (Bool-cases (contains held admin_scope)) [
  | inl admin ↦ ground (arith, w admin_scope admin)
  | inr user ↦ elim (Bool-cases (contains wider admin_scope)) [
    | inl admin ↦ ground (arith, admin)
    | inr still ↦ ground (
      arith,
      still,
      gate_requirement-wider held wider w (required_for_call tool args) (ground (arith, h, user)),
    )
  ]
]

module _ (held : List Bytes) where
  for_action-visible :
      (actions : List (Bytes × List Bytes)) (action : Bytes) (required : List Bytes)
      → Map.get action actions ≡ some required
      → all (λ s. contains held s) required ≡ true
      → any (λ a. all (λ s. contains held s) a.1) actions ≡ true
  unfolding Map.get
  for_action-visible [] action required found h = ground (arith, found)
  for_action-visible ((a, rs) ∷ actions) action required found h = elim (Bool-cases (a == action)) [
    | inl here ↦
        let same : rs ≡ required = ground (arith, found, here) in
        ground (arith, subst (λ x. all (λ s. contains held s) x ≡ true) (sym same) h)
    | inr other ↦
        ground (arith, for_action-visible actions action required (ground (arith, found, other)) h)
  ]

  rule-visible :
      (rule : Option ScopeRule) (args : Option JsonObject)
      → gate_requirement (rule_requirement rule args) held ≡ proceed
      → rule_requirement rule args ≢ unchecked
      → rule_visible rule held ≡ true
  unfolding rule_requirement gate_requirement rule_visible for_action
  rule-visible none args h checked = absurd (ground (arith, h))
  rule-visible (some (fixed required)) args h checked = (gate_all-proceed required held proceed h).0
  rule-visible (some (any_of_rule candidates)) args h checked = gate_any-proceed candidates held h
  rule-visible (some (per_action actions)) args h checked = elim (Option-cases (action_str args)) [
    | inl unnamed ↦ absurd (checked (ap (for_action actions) unnamed))
    | inr (action, named) ↦ elim (Option-cases (Map.get action actions)) [
      | inl unknown ↦ absurd (checked (ground (arith, named, unknown)))
      | inr (required, found) ↦
          for_action-visible actions action required found
            ((gate_all-proceed required held proceed (ground (arith, h, named, found))).0)
    ]
  ]

  -- Whatever is changed besides notes, it takes `edit_issues`.
  update_base-edit :
      (args : JsonObject)
      → all (λ s. contains held s) (update_base args) ≡ true
      → contains held (codes "edit_issues") ≡ true
  unfolding update_base
  update_base-edit args h = elim (Bool-cases (is_reparenting args)) [
    | inl moved ↦ elim (Bool-cases (has_agile_field args)) [
      | inl agile ↦ ground (arith, h, moved, agile)
      | inr plain ↦ ground (arith, h, moved, plain)
    ]
    | inr stays ↦ elim (Bool-cases (has_agile_field args)) [
      | inl agile ↦ ground (arith, h, stays, agile)
      | inr plain ↦ ground (arith, h, stays, plain)
    ]
  ]

  update-visible :
      (args : Option JsonObject)
      → gate_requirement (update_redmine_issue_requirement args) held ≡ proceed
      → contains held (codes "edit_issues") || contains held (codes "add_issue_notes") ≡ true
  unfolding update_redmine_issue_requirement gate_requirement update_base
  update-visible none h = ground (arith, (gate_all-proceed update_issue_base held proceed h).0)
  update-visible (some args) h = elim (Bool-cases (is_notes_only_update args)) [
    | inl notes ↦ ground (
      arith,
      (gate_all-proceed update_issue_notes_only held proceed (ground (arith, h, notes))).0,
    )
    | inr more ↦ elim (Bool-cases (Map.contains_key (codes "tag_list") args)) [
      | inl tagged ↦ ground (
        arith,
        update_base-edit args (
            (gate_all-proceed (update_base args) held (gate_any tag_list_scopes held)
              (ground (arith, h, more, tagged))).0),
      )
      | inr plain ↦ ground (
        arith,
        update_base-edit args
            ((gate_all-proceed (update_base args) held proceed (ground (arith, h, more, plain))).0),
      )
    ]
  ]

  create-visible :
      (args : Option JsonObject)
      → gate_requirement (create_redmine_issue_requirement args) held ≡ proceed
      → contains held (codes "add_issues") ≡ true
  unfolding create_redmine_issue_requirement gate_requirement
  create-visible args h = elim (Bool-cases (has_tag_list args)) [
    | inl tagged ↦ ground (
      arith,
      (gate_all-proceed create_issue_base held (gate_any tag_list_scopes held)
          (ground (arith, h, tagged))).0,
    )
    | inr plain ↦
        ground
          (arith, (gate_all-proceed create_issue_base held proceed (ground (arith, h, plain))).0)
  ]

create_visible :
    (held : List Bytes)
    → contains held (codes "add_issues") ≡ true
    → rule_visible (some (fixed create_issue_base)) held ≡ true
unfolding rule_visible
create_visible held h = ground (arith, h)

create_rule : Map.get (codes "create_redmine_issue") tool_scopes ≡ some (fixed create_issue_base)
unfolding tool_scopes Map.get bytes_beq
create_rule = refl

-- What a token may call is listed for it: when the gate lets a call through, and the call names
-- an action that its tool's rule knows if the rule goes by actions, then the tool is visible for
-- the token.
pub gate-visible_for :
    (held : List Bytes) (tool : Bytes) (args : Option JsonObject)
    → required_for_call tool args ≢ unchecked
    → gate held tool args ≡ proceed
    → visible_for tool held ≡ true
unfolding gate visible_for required_for_call
gate-visible_for held tool args checked h = elim (Bool-cases (is_admin held)) [
  | inl admin ↦ ground (arith, admin)
  | inr user ↦ elim (Bool-cases (tool == codes "update_redmine_issue")) [
    | inl update ↦
        ground (arith, user, update, update-visible held args (ground (arith, h, user, update)))
    | inr other ↦ elim (Bool-cases (tool == codes "create_redmine_issue")) [
      | inl create ↦
          let same = (bytes_beq_iff tool (codes "create_redmine_issue")).0 create in
          let allowed = create-visible held args (ground (arith, h, user, other, create)) in
          rw (visible_for, user, other)
            (subst (λ r. rule_visible r held ≡ true)
              (sym (ap (λ t. Map.get t tool_scopes) same ∙ create_rule))
              (create_visible held allowed))
      | inr mapped ↦
          rw (visible_for, user, other)
            (rule-visible held (Map.get tool tool_scopes) args
              (ground (arith, h, user, other, mapped))
              (λ e. checked (rw (required_for_call, other, mapped) e)))
    ]
  ]
]
