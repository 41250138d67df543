-- ===== src/Tools/Routes/Listed.antt =====
-- readonly.rs, server.rs and auth/scope.rs: what a deployment offers is listed.
use ruprogress_mcp.Tools.Routes.{
  Config, plugin_tools, remove_disabled, remove_route, remove_routes, routes, write_tools,
}
use ruprogress_mcp.Auth.Scope.{any_held, is_admin, rule_visible, visible_for}
use ruprogress_mcp.Auth.ScopeRule.{ScopeRule, tool_scopes}
use ruprogress_mcp.OauthProxy.Advertised.{
  advertised, agile_read_scopes, read_scopes, tags_read_scopes, tags_write_scopes, write_scopes,
}
use ruprogress_mcp.Std.Map as Map
use ruprogress_mcp.Base.{
  ap, bytes_beq_iff, ==_sym, Bool, Bool-cases, Bytes, List, [], all, arith, bytes_beq, bytes_eq,
  codes, contains, false, if◌then◌else◌, inl, inr, not, refl, some, true, ◌&&◌, ◌==◌, ◌||◌, ◌∷◌,
  ◌≡◌, ◌≢◌, subst, none, Option-cases,
}

-- A tool of the table in read-only mode and otherwise.
abbrev is_offered : Bool → Bytes → Bool
unfolding write_tools
is_offered read_only tool = not (read_only && contains write_tools tool)

abbrev in_table : Bool → Bool → Bool → Bool
unfolding is_offered
in_table read_only agile tags =
    all
      (λ e.
        not (is_offered read_only e.0) || rule_visible (some e.1) (advertised read_only agile tags))
      tool_scopes

table_visible : (read_only agile tags : Bool) → in_table read_only agile tags ≡ true
unfolding in_table is_offered write_tools rule_visible any_held tool_scopes bytes_beq advertised
    read_scopes write_scopes agile_read_scopes tags_read_scopes tags_write_scopes
table_visible false false false = refl
table_visible false false true = refl
table_visible false true false = refl
table_visible false true true = refl
table_visible true false false = refl
table_visible true false true = refl
table_visible true true false = refl
table_visible true true true = refl

contains-remove_route :
    (name tool : Bytes) (router : List Bytes)
    → contains (remove_route name router) tool ≡ true
    → (contains router tool ≡ true) × ((tool == name) ≡ false)
unfolding remove_route
contains-remove_route name tool [] h = ground (arith, h)
contains-remove_route name tool (t ∷ router) h = elim (Bool-cases (t == name)) [
  | inl gone ↦
      let (there, differs) = contains-remove_route name tool router (ground (arith, h, gone)) in
      (ground (arith, there), differs)
  | inr kept ↦ elim (Bool-cases (t == tool)) [
    | inl here ↦ (
      ground (arith, here),
      subst (λ x. (x == name) ≡ false) ((bytes_beq_iff t tool).0 here) kept,
    )
    | inr next ↦
        let (there, differs) =
          contains-remove_route name tool router (ground (arith, h, kept, next)) in
        (ground (arith, there), differs)
  ]
]

contains-remove_routes :
    (names : List Bytes) (tool : Bytes) (router : List Bytes)
    → contains (remove_routes names router) tool ≡ true
    → (contains router tool ≡ true) × (contains names tool ≡ false)
unfolding remove_routes
contains-remove_routes [] tool router h = (h, refl)
contains-remove_routes (name ∷ names) tool router h =
    let (there, differ) = contains-remove_routes names tool (remove_route name router) h in
    let (before, differs) = contains-remove_route name tool router there in
    (before, ground (arith, differ, ==_sym tool name, differs))

admin_kept :
    (exposed : Bool) (name tool : Bytes) (router : List Bytes)
    → contains (if not exposed then remove_route name router else router) tool ≡ true
    → contains router tool ≡ true
admin_kept false name tool router h = (contains-remove_route name tool router h).0
admin_kept true name tool router h = h

-- A tool that is left in read-only mode is not one of those that write.
read_only_kept :
    (read_only : Bool) (tool : Bytes) (router : List Bytes)
    → contains (if read_only then remove_routes write_tools router else router) tool ≡ true
    → is_offered read_only tool ≡ true
unfolding is_offered
read_only_kept false tool router h = refl
read_only_kept true tool router h = ap not (contains-remove_routes write_tools tool router h).1

routes-is_offered :
    (config : Config) (tool : Bytes) (router : List Bytes)
    → contains (routes config router) tool ≡ true
    → is_offered config.read_only tool ≡ true
unfolding routes
routes-is_offered config tool router h =
    let enabled = remove_disabled config.plugins plugin_tools router in
    read_only_kept config.read_only tool enabled (
      admin_kept config.expose_admin_tools (codes "cleanup_attachment_files") tool
        (if config.read_only then remove_routes write_tools enabled else enabled) h)

both_true : (a b : Bool) → a && b ≡ true → (a ≡ true) × (b ≡ true)
both_true a b h = ground (arith, h)

when_offered : (a b : Bool) → a ≡ true → not a || b ≡ true → b ≡ true
when_offered a b h hs = ground (arith, h, hs)

table_rule :
    (read_only : Bool) (held : List Bytes) (table : List (Bytes × ScopeRule)) (tool : Bytes)
    (rule : ScopeRule)
    → all (λ e. not (is_offered read_only e.0) || rule_visible (some e.1) held) table ≡ true
    → Map.get tool table ≡ some rule
    → is_offered read_only tool ≡ true
    → rule_visible (some rule) held ≡ true
unfolding Map.get
table_rule read_only held [] tool rule h found offered = ground (arith, found)
table_rule read_only held ((t, r) ∷ table) tool rule h found offered =
    let (first, rest) =
      both_true (not (is_offered read_only t) || rule_visible (some r) held)
        (all (λ e. not (is_offered read_only e.0) || rule_visible (some e.1) held) table) h in
    elim (Bool-cases (t == tool)) [
      | inl here ↦
          let same : r ≡ rule = ground (arith, found, here) in
          let at_tool =
            subst (λ x. not (is_offered read_only x) || rule_visible (some r) held ≡ true)
              ((bytes_beq_iff t tool).0 here) first in
          subst (λ x. rule_visible (some x) held ≡ true) same
            (when_offered (is_offered read_only tool) (rule_visible (some r) held) offered at_tool)
      | inr next ↦
          table_rule read_only held table tool rule rest (ground (arith, found, next)) offered
    ]

held_edit :
    (agile tags : Bool) → contains (advertised false agile tags) (codes "edit_issues") ≡ true
unfolding bytes_beq advertised read_scopes write_scopes agile_read_scopes tags_read_scopes
    tags_write_scopes
held_edit false false = refl
held_edit false true = refl
held_edit true false = refl
held_edit true true = refl

update_hidden : is_offered true (codes "update_redmine_issue") ≡ false
unfolding is_offered write_tools bytes_beq
update_hidden = refl

update_visible :
    (read_only agile tags : Bool)
    → is_offered read_only (codes "update_redmine_issue") ≡ true
    → contains (advertised read_only agile tags) (codes "edit_issues") ≡ true
update_visible false agile tags h = held_edit agile tags
update_visible true agile tags h = absurd (ground (arith, h, update_hidden))

-- What a deployment offers, it lists: a tool that the configuration leaves in the router, and that
-- has a rule, is visible to a token that holds the scopes which the same configuration advertises,
-- in read-only mode and otherwise, with the agile board and tags or without.
pub routes-visible_for :
    (config : Config) (router : List Bytes) (tool : Bytes)
    → contains (routes config router) tool ≡ true
    → Map.get tool tool_scopes ≢ none
    → visible_for tool (advertised config.read_only config.plugins.agile config.plugins.tags) ≡ true
unfolding visible_for in_table
routes-visible_for config router tool h known =
    let held = advertised config.read_only config.plugins.agile config.plugins.tags in
    let offered = routes-is_offered config tool router h in
    elim (Bool-cases (is_admin held)) [
      | inl admin ↦ rw (admin) refl
      | inr user ↦ elim (Bool-cases (tool == codes "update_redmine_issue")) [
        | inl update ↦
            let same = (bytes_beq_iff tool (codes "update_redmine_issue")).0 update in
            let edits =
              update_visible config.read_only config.plugins.agile config.plugins.tags
                (subst (λ t. is_offered config.read_only t ≡ true) same offered) in
            rw (user, update, edits) refl
        | inr next ↦ elim (Option-cases (Map.get tool tool_scopes)) [
          | inl unknown ↦ absurd (known unknown)
          | inr (rule, found) ↦
              rw (user, next, found)
                (table_rule config.read_only held tool_scopes tool rule
                  (table_visible config.read_only config.plugins.agile config.plugins.tags) found
                  offered)
        ]
      ]
    ]
