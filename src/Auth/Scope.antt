-- ===== src/Auth/Scope.antt =====
-- auth/scope.rs: what a tool call needs, and the gate of dispatch_tool_call in server.rs.
pub mod Enforced
pub mod Reach
use ruprogress_mcp.Auth.ScopeRule.{
  ScopeRule, agile_update_fields, any_of_rule, create_issue_base, fixed, notes_only_fields,
  per_action, tag_list_scopes, tool_scopes, update_issue_base, update_issue_base_with_agile,
  update_issue_notes_only, update_issue_with_subtasks, update_issue_with_subtasks_and_agile,
}
use ruprogress_mcp.Std.Map.{HashMap}
use ruprogress_mcp.Std.Map as Map
use ruprogress_mcp.Base.{
  Bool, Bytes, List, Option, [], all, any, bytes_eq, codes, contains, false, filter, if◌then◌else◌,
  is_empty, none, not, some, true, ◌==◌, ◌>>=◌, ◌||◌, ◌∷◌,
}

abbrev pub admin_scope : Bytes
admin_scope = codes "admin"

-- A JSON argument as far as it is read: a string, an array with the strings among its items, or
-- neither.
pub data Arg : Type 0 where
  text : Bytes → Arg
  items : List (Option Bytes) → Arg
  opaque : Arg

abbrev pub JsonObject : Type 0
JsonObject = HashMap Bytes Arg

pub data Requirement : Type 0 where
  unchecked : Requirement
  scopes : List Bytes → Requirement
  any_of : List Bytes → Requirement
  scopes_with_any_of : List Bytes → List Bytes → Requirement
  unmapped : Requirement

abbrev pub as_str : Arg → Option Bytes
as_str (text s) = some s
as_str _ = none

unfoldable pub action_str : Option JsonObject → Option Bytes
action_str none = none
action_str (some args) = Map.get (codes "action") args >>= as_str

-- The loop of `is_notes_only_update`, with whether a field of notes was seen.
unfoldable pub notes_only_from : Bool → JsonObject → Bool
notes_only_from saw_notes_field [] = saw_notes_field
notes_only_from saw_notes_field ((key, arg) ∷ args) =
    let after_id = notes_only_from saw_notes_field args in
    let after_notes = notes_only_from true args in
    if key == codes "issue_id"
    then after_id
    else if not (contains notes_only_fields key)
    then false
    else after_notes

unfoldable pub is_notes_only_update : JsonObject → Bool
unfolding notes_only_from
is_notes_only_update args = notes_only_from false args

unfoldable pub has_agile_field : JsonObject → Bool
has_agile_field args = any (λ f. Map.contains_key f args) agile_update_fields

-- Whether `clear_fields` is an array that names a field.
abbrev pub is_text : Bytes → Option Bytes → Bool
is_text s none = false
is_text s (some t) = t == s

abbrev pub lists : Bytes → Option Arg → Bool
lists s (some (items xs)) = any (is_text s) xs
lists s _ = false

unfoldable pub is_reparenting : JsonObject → Bool
is_reparenting args =
    Map.contains_key (codes "parent_issue_id") args
    || lists (codes "parent_issue_id") (Map.get (codes "clear_fields") args)

unfoldable pub update_base : JsonObject → List Bytes
unfolding has_agile_field is_reparenting
update_base args =
    if is_reparenting args
    then (if has_agile_field args
        then update_issue_with_subtasks_and_agile
        else update_issue_with_subtasks)
    else (if has_agile_field args then update_issue_base_with_agile else update_issue_base)

unfoldable pub update_redmine_issue_requirement : Option JsonObject → Requirement
unfolding is_notes_only_update update_base
update_redmine_issue_requirement none = scopes update_issue_base
update_redmine_issue_requirement (some args) =
    if is_notes_only_update args
    then scopes update_issue_notes_only
    else if Map.contains_key (codes "tag_list") args
    then scopes_with_any_of (update_base args) tag_list_scopes
    else scopes (update_base args)

abbrev pub has_tag_list : Option JsonObject → Bool
has_tag_list none = false
has_tag_list (some args) = Map.contains_key (codes "tag_list") args

unfoldable pub create_redmine_issue_requirement : Option JsonObject → Requirement
create_redmine_issue_requirement args =
    if has_tag_list args
    then scopes_with_any_of create_issue_base tag_list_scopes
    else scopes create_issue_base

-- The requirement of an action among those of a rule.
unfoldable pub for_action : List (Bytes × List Bytes) → Option Bytes → Requirement
for_action actions none = unchecked
for_action actions (some action) = elim (Map.get action actions) [
  | none ↦ unchecked
  | some required ↦ scopes required
]

unfoldable pub rule_requirement : Option ScopeRule → Option JsonObject → Requirement
unfolding for_action action_str
rule_requirement none args = unmapped
rule_requirement (some (fixed required)) args = scopes required
rule_requirement (some (any_of_rule candidates)) args = any_of candidates
rule_requirement (some (per_action actions)) args = for_action actions (action_str args)

unfoldable pub required_for_call : Bytes → Option JsonObject → Requirement
unfolding update_redmine_issue_requirement create_redmine_issue_requirement rule_requirement
required_for_call tool args =
    if tool == codes "update_redmine_issue"
    then update_redmine_issue_requirement args
    else if tool == codes "create_redmine_issue"
    then create_redmine_issue_requirement args
    else rule_requirement (Map.get tool tool_scopes) args

-- The scopes of a token are a list here, of which only membership is asked.
unfoldable pub is_admin : List Bytes → Bool
is_admin held = contains held admin_scope

unfoldable pub missing : List Bytes → List Bytes → List Bytes
missing required held = filter (λ scope. not (contains held scope)) required

unfoldable pub any_held : List Bytes → List Bytes → Bool
any_held candidates held = any (λ scope. contains held scope) candidates

unfoldable pub rule_visible : Option ScopeRule → List Bytes → Bool
unfolding any_held
rule_visible none held = false
rule_visible (some (fixed required)) held = all (λ scope. contains held scope) required
rule_visible (some (any_of_rule candidates)) held = any_held candidates held
rule_visible (some (per_action actions)) held =
    any (λ a. all (λ scope. contains held scope) a.1) actions

unfoldable pub visible_for : Bytes → List Bytes → Bool
unfolding is_admin rule_visible
visible_for tool held =
    if is_admin held
    then true
    else if tool == codes "update_redmine_issue"
    then contains held (codes "edit_issues") || contains held (codes "add_issue_notes")
    else rule_visible (Map.get tool tool_scopes) held

-- The gate lets a call through, or denies it for the scopes that are missing, or because none of
-- some is held.
pub data Gate : Type 0 where
  proceed : Gate
  lacks : List Bytes → Gate
  lacks_any : List Bytes → Gate

unfoldable pub gate_all : List Bytes → List Bytes → Gate → Gate
unfolding missing
gate_all required held next =
    if is_empty (missing required held) then next else lacks (missing required held)

unfoldable pub gate_any : List Bytes → List Bytes → Gate
unfolding any_held
gate_any candidates held = if any_held candidates held then proceed else lacks_any candidates

unfoldable pub gate_requirement : Requirement → List Bytes → Gate
unfolding gate_all gate_any
gate_requirement unchecked held = proceed
gate_requirement (scopes required) held = gate_all required held proceed
gate_requirement (any_of candidates) held = gate_any candidates held
gate_requirement (scopes_with_any_of required candidates) held =
    gate_all required held (gate_any candidates held)
gate_requirement unmapped held = lacks []

-- The part of `dispatch_tool_call` before the tool, where scopes are enforced.
unfoldable pub gate : List Bytes → Bytes → Option JsonObject → Gate
unfolding is_admin required_for_call gate_requirement
gate held tool args =
    if is_admin held then proceed else gate_requirement (required_for_call tool args) held
