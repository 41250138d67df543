-- ===== src/Tools/Routes.antt =====
-- readonly.rs and server.rs: the tools that a deployment offers. The router is the list of its
-- tools' names.
pub mod Listed
use ruprogress_mcp.Auth.Scope.{admin_scope, any_held, is_admin, rule_visible, visible_for}
use ruprogress_mcp.Auth.ScopeRule.{ScopeRule, tool_scopes}
use ruprogress_mcp.OauthProxy.Advertised.{
  advertised, agile_read_scopes, read_scopes, tags_read_scopes, tags_write_scopes, write_scopes,
}
use ruprogress_mcp.Std.Map as Map
use ruprogress_mcp.Base.{
  ap, bytes_beq_iff, ==_sym, Bool, Bool-cases, Bytes, List, [], all, any, arith, bytes_beq,
  bytes_eq, codes, contains, false, filter, if◌then◌else◌, inl, inr, map, not, refl, some, true,
  ◌&&◌, ◌==◌, ◌||◌, ◌∷◌, ◌≡◌, ◌≢◌, subst, sym, Option, none, Option-cases,
}

-- `write_tools::ALL`.
unfoldable pub write_tools : List Bytes
write_tools =
    codes "manage_redmine_version"
    ∷ codes "manage_project_member"
    ∷ codes "manage_time_entry"
    ∷ codes "import_time_entries"
    ∷ codes "create_redmine_issue"
    ∷ codes "update_redmine_issue"
    ∷ codes "delete_redmine_issue"
    ∷ codes "copy_issue"
    ∷ codes "manage_issue_watcher"
    ∷ codes "manage_issue_note"
    ∷ codes "delete_file"
    ∷ codes "upload_file"
    ∷ codes "create_checklist_item"
    ∷ codes "update_checklist_item"
    ∷ []

pub record PluginFlags : Type 0 where
  pub agile : Bool
  pub checklists : Bool
  pub products : Bool
  pub crm : Bool
  pub dmsf : Bool
  pub tags : Bool

unfoldable pub plugin_tools : List (Bytes × (PluginFlags → Bool))
plugin_tools =
    (codes "get_checklist", λ flags. flags.checklists)
    ∷ (codes "create_checklist_item", λ flags. flags.checklists)
    ∷ (codes "update_checklist_item", λ flags. flags.checklists)
    ∷ (codes "manage_product", λ flags. flags.products)
    ∷ (codes "manage_contact", λ flags. flags.crm)
    ∷ (codes "manage_document", λ flags. flags.dmsf)
    ∷ []

-- What `RedmineMcp::new` reads of the configuration.
pub record Config : Type 0 where
  pub read_only : Bool
  pub expose_admin_tools : Bool
  pub plugins : PluginFlags

-- `ToolRouter::remove_route`.
unfoldable pub remove_route : Bytes → List Bytes → List Bytes
remove_route name router = filter (λ tool. not (tool == name)) router

unfoldable pub remove_routes : List Bytes → List Bytes → List Bytes
unfolding remove_route
remove_routes [] router = router
remove_routes (name ∷ names) router = remove_routes names (remove_route name router)

unfoldable pub remove_disabled :
    PluginFlags → List (Bytes × (PluginFlags → Bool)) → List Bytes → List Bytes
unfolding remove_route
remove_disabled flags [] router = router
remove_disabled flags ((name, enabled) ∷ rows) router =
    remove_disabled flags rows (if not (enabled flags) then remove_route name router else router)

-- The tools that `RedmineMcp::new` leaves of those of its router.
unfoldable pub routes : Config → List Bytes → List Bytes
unfolding remove_disabled plugin_tools remove_routes write_tools remove_route
routes config router =
    let enabled = remove_disabled config.plugins plugin_tools router in
    let allowed = if config.read_only then remove_routes write_tools enabled else enabled in
    if not config.expose_admin_tools
    then remove_route (codes "cleanup_attachment_files") allowed
    else allowed
