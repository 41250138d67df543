-- ===== src/Auth/Scope/Reach.antt =====
-- auth/scope.rs and oauth/scopes.rs: the scopes that are advertised reach every tool.
use ruprogress_mcp.Auth.ScopeRule.{
  ScopeRule, any_of_rule, create_issue_base, fixed, per_action, tag_list_scopes, tool_scopes,
  update_issue_base, update_issue_notes_only, update_issue_with_subtasks_and_agile,
}
use ruprogress_mcp.Auth.Scope.{
  JsonObject, action_str, any_held, create_redmine_issue_requirement, for_action, gate, gate_any,
  gate_requirement, has_agile_field, has_tag_list, is_admin, is_notes_only_update, is_reparenting,
  proceed, required_for_call, rule_requirement, scopes_with_any_of, update_base,
  update_redmine_issue_requirement,
}
use ruprogress_mcp.Auth.Scope.Enforced.{gate_all-all, gate_any-any}
use ruprogress_mcp.OauthProxy.Advertised.{
  advertised, agile_read_scopes, read_scopes, tags_read_scopes, tags_write_scopes, write_scopes,
}
use ruprogress_mcp.Std.Map as Map
use ruprogress_mcp.Base.{
  Bool, Bool-cases, Bytes, List, Option, Option-cases, [], all, any, arith, bytes_beq, bytes_eq,
  codes, contains, false, inl, inr, none, refl, some, subst, true, ◌==◌, ◌∷◌, ◌≡◌, ◌≢◌, ◌∙◌,
}

-- Whether a token satisfies a rule whatever the arguments are.
unfoldable covers : List Bytes → ScopeRule → Bool
covers held (fixed required) = all (λ s. contains held s) required
covers held (any_of_rule candidates) = any (λ s. contains held s) candidates
covers held (per_action actions) = all (λ a. all (λ s. contains held s) a.1) actions

module _ (held : List Bytes) where
  for_action-covered :
      (actions : List (Bytes × List Bytes)) (action : Bytes) (required : List Bytes)
      → all (λ a. all (λ s. contains held s) a.1) actions ≡ true
      → Map.get action actions ≡ some required
      → all (λ s. contains held s) required ≡ true
  unfolding Map.get
  for_action-covered [] action required h found = ground (arith, found)
  for_action-covered ((a, rs) ∷ actions) action required h found = elim (Bool-cases (a == action)) [
    | inl here ↦
        let same : rs ≡ required = ground (arith, found, here) in
        subst (λ x. all (λ s. contains held s) x ≡ true) same (ground (arith, h))
    | inr next ↦
        for_action-covered actions action required (ground (arith, h)) (ground (arith, found, next))
  ]

  rule-covered :
      (rule : ScopeRule) (args : Option JsonObject)
      → covers held rule ≡ true
      → gate_requirement (rule_requirement (some rule) args) held ≡ proceed
  unfolding covers rule_requirement gate_requirement for_action any_held
  rule-covered (fixed required) args h = gate_all-all required held proceed h
  rule-covered (any_of_rule candidates) args h = gate_any-any candidates held h
  rule-covered (per_action actions) args h = elim (Option-cases (action_str args)) [
    | inl unnamed ↦ ground (arith, unnamed)
    | inr (action, named) ↦ elim (Option-cases (Map.get action actions)) [
      | inl unknown ↦ ground (arith, named, unknown)
      | inr (required, found) ↦ ground (
        arith,
        named,
        found,
        gate_all-all required held proceed (for_action-covered actions action required h found),
      )
    ]
  ]

  table-covered :
      (table : List (Bytes × ScopeRule)) (tool : Bytes) (rule : ScopeRule)
      → all (λ e. covers held e.1) table ≡ true
      → Map.get tool table ≡ some rule
      → covers held rule ≡ true
  unfolding Map.get
  table-covered [] tool rule h found = ground (arith, found)
  table-covered ((t, r) ∷ table) tool rule h found = elim (Bool-cases (t == tool)) [
    | inl here ↦
        let same : r ≡ rule = ground (arith, found, here) in
        subst (λ x. covers held x ≡ true) same (ground (arith, h))
    | inr next ↦ table-covered table tool rule (ground (arith, h)) (ground (arith, found, next))
  ]

  base-covered :
      (args : JsonObject)
      → all (λ s. contains held s) update_issue_with_subtasks_and_agile ≡ true
      → all (λ s. contains held s) (update_base args) ≡ true
  unfolding update_base
  base-covered args h = elim (Bool-cases (is_reparenting args)) [
    | inl moved ↦ elim (Bool-cases (has_agile_field args)) [
      | inl agile ↦ rw (moved, agile) h
      | inr plain ↦ rw (moved, plain) (ground (arith, h))
    ]
    | inr stays ↦ elim (Bool-cases (has_agile_field args)) [
      | inl agile ↦ rw (stays, agile) (ground (arith, h))
      | inr plain ↦ rw (stays, plain) (ground (arith, h))
    ]
  ]

  module _ (tags : any_held tag_list_scopes held ≡ true) where
    with_tags :
        (required : List Bytes)
        → all (λ s. contains held s) required ≡ true
        → gate_requirement (scopes_with_any_of required tag_list_scopes) held ≡ proceed
    unfolding gate_requirement
    with_tags required h =
        gate_all-all required held (gate_any tag_list_scopes held) h
        ∙ gate_any-any tag_list_scopes held tags

    create-covered :
        (args : Option JsonObject)
        → all (λ s. contains held s) create_issue_base ≡ true
        → gate_requirement (create_redmine_issue_requirement args) held ≡ proceed
    unfolding create_redmine_issue_requirement gate_requirement
    create-covered args h = elim (Bool-cases (has_tag_list args)) [
      | inl tagged ↦ rw (tagged) (with_tags create_issue_base h)
      | inr plain ↦ rw (plain) (gate_all-all create_issue_base held proceed h)
    ]

    update-covered :
        (args : Option JsonObject)
        → all (λ s. contains held s) update_issue_notes_only ≡ true
        → all (λ s. contains held s) update_issue_with_subtasks_and_agile ≡ true
        → gate_requirement (update_redmine_issue_requirement args) held ≡ proceed
    unfolding update_redmine_issue_requirement gate_requirement
    update-covered none notes most =
        gate_all-all update_issue_base held proceed (ground (arith, most))
    update-covered (some args) notes most = elim (Bool-cases (is_notes_only_update args)) [
      | inl only ↦ rw (only) (gate_all-all update_issue_notes_only held proceed notes)
      | inr more ↦ elim (Bool-cases (Map.contains_key (codes "tag_list") args)) [
        | inl tagged ↦ rw (more, tagged) (with_tags (update_base args) (base-covered args most))
        | inr plain ↦
            rw (more, plain) (gate_all-all (update_base args) held proceed (base-covered args most))
      ]
    ]

all_tools : all (λ e. covers (advertised false true true) e.1) tool_scopes ≡ true
unfolding covers advertised read_scopes write_scopes agile_read_scopes tags_read_scopes
    tags_write_scopes tool_scopes bytes_beq
all_tools = refl

abbrev pub whole : List Bytes
whole = advertised false true true

all_of-whole :
    (all (λ s. contains whole s) update_issue_notes_only ≡ true)
    × (all (λ s. contains whole s) update_issue_with_subtasks_and_agile ≡ true)
    × (any_held tag_list_scopes whole ≡ true)
    × (all (λ s. contains whole s) create_issue_base ≡ true)
unfolding any_held advertised read_scopes write_scopes agile_read_scopes tags_read_scopes
    tags_write_scopes bytes_beq
all_of-whole = (refl, refl, refl, refl)

-- No tool is out of reach: a token that holds all that is advertised with writes, the agile board
-- and tags on is let through by the gate for every tool that has a rule, whatever its arguments.
pub gate-advertised :
    (tool : Bytes) (args : Option JsonObject)
    → Map.get tool tool_scopes ≢ none
    → gate (advertised false true true) tool args ≡ proceed
unfolding gate required_for_call
gate-advertised tool args known = elim (Bool-cases (is_admin whole)) [
  | inl admin ↦ rw (admin) refl
  | inr user ↦
      let (notes, most, tags, create) = all_of-whole in
      elim (Bool-cases (tool == codes "update_redmine_issue")) [
        | inl update ↦ rw (user, update) (update-covered whole tags args notes most)
        | inr next ↦ elim (Bool-cases (tool == codes "create_redmine_issue")) [
          | inl created ↦ rw (user, next, created) (create-covered whole tags args create)
          | inr mapped ↦ elim (Option-cases (Map.get tool tool_scopes)) [
            | inl unknown ↦ absurd (known unknown)
            | inr (rule, found) ↦
                rw (user, next, mapped, found)
                  (rule-covered whole rule args
                    (table-covered whole tool_scopes tool rule all_tools found))
          ]
        ]
      ]
]
