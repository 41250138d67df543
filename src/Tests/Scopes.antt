-- ===== src/Tests/Scopes.antt =====
-- Calls at the gate with concrete scopes.
use ruprogress_mcp.Auth.ScopeRule.{tool_scopes}
use ruprogress_mcp.Auth.Scope.{
  gate, gate_all, gate_requirement, is_admin, items, JsonObject, missing, proceed,
  required_for_call, rule_requirement, text, unchecked, visible_for,
  update_redmine_issue_requirement, update_base, is_notes_only_update, notes_only_from,
  has_agile_field, is_reparenting, lacks,
}
use ruprogress_mcp.Auth.Scope.Enforced.{IsWider, gate-visible_for, gate-wider}
use ruprogress_mcp.Auth.Scope.Reach.{gate-advertised}
use ruprogress_mcp.OauthProxy.Advertised.{advertised}
use ruprogress_mcp.Tools.Routes.{
  Config, plugin_tools, remove_disabled, remove_route, remove_routes, routes, write_tools,
}
use ruprogress_mcp.Tools.Routes.Listed.{routes-visible_for}
use ruprogress_mcp.Std.Map as Map
use ruprogress_mcp.Base.{
  contains, Bytes, List, Option, [], arith, bytes_beq, bytes_eq, codes, none, refl, some, true,
  false, ◌∷◌, ◌≡◌, ◌≢◌,
}

abbrev viewer : List Bytes
viewer = codes "view_issues" ∷ []

abbrev editor : List Bytes
editor = codes "edit_issues" ∷ viewer

abbrev list_issues : Bytes
list_issues = codes "list_redmine_issues"

-- An update that moves issue [5] below another.
abbrev reparent : Option JsonObject
reparent = some (
    (codes "issue_id", text (5 ∷ []))
    ∷ (codes "clear_fields", items (some (codes "parent_issue_id") ∷ []))
    ∷ [])

viewer-IsWider : IsWider viewer editor
viewer-IsWider s h = ground (arith, h)

gate-viewer : gate viewer list_issues none ≡ proceed
unfolding gate is_admin required_for_call rule_requirement gate_requirement gate_all missing
    tool_scopes Map.get bytes_beq
gate-viewer = refl

gate-reparent :
    gate editor (codes "update_redmine_issue") reparent ≡ lacks (codes "manage_subtasks" ∷ [])
unfolding gate is_admin required_for_call update_redmine_issue_requirement is_notes_only_update
    notes_only_from update_base is_reparenting has_agile_field gate_requirement gate_all missing
    Map.get bytes_beq
gate-reparent = refl

listed-checked : required_for_call list_issues none ≢ unchecked
unfolding required_for_call rule_requirement tool_scopes Map.get bytes_beq
listed-checked h = ground (arith, h)

listed-known : Map.get list_issues tool_scopes ≢ none
unfolding tool_scopes Map.get bytes_beq
listed-known h = ground (arith, h)

gate-wider_example : gate editor list_issues none ≡ proceed
gate-wider_example = gate-wider viewer editor list_issues none viewer-IsWider gate-viewer

gate-visible_for_example : visible_for list_issues viewer ≡ true
gate-visible_for_example = gate-visible_for viewer list_issues none listed-checked gate-viewer

gate-advertised_example : gate (advertised false true true) list_issues none ≡ proceed
gate-advertised_example = gate-advertised list_issues none listed-known

-- A deployment in read-only mode, with the agile board and nothing else.
abbrev read_only_config : Config
read_only_config = record {
  read_only = true;
  expose_admin_tools = false;
  plugins = record {
    agile = true;
    checklists = false;
    products = false;
    crm = false;
    dmsf = false;
    tags = false;
  };
}

still_offered :
    contains (routes read_only_config (codes "delete_file" ∷ list_issues ∷ [])) list_issues ≡ true
unfolding routes remove_disabled plugin_tools remove_routes remove_route write_tools bytes_beq
still_offered = refl

routes-visible_for_example : visible_for list_issues (advertised true true false) ≡ true
routes-visible_for_example =
    routes-visible_for read_only_config (codes "delete_file" ∷ list_issues ∷ []) list_issues
      still_offered listed-known
