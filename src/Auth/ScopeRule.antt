-- ===== src/Auth/ScopeRule.antt =====
-- auth/scope.rs: the scopes that each tool needs.
use ruprogress_mcp.Base.{Bytes, List, [], codes, ◌∷◌}

pub data ScopeRule : Type 0 where
  fixed : List Bytes → ScopeRule
  per_action : List (Bytes × List Bytes) → ScopeRule
  any_of_rule : List Bytes → ScopeRule

abbrev pub update_issue_notes_only : List Bytes
update_issue_notes_only = codes "add_issue_notes" ∷ []

abbrev pub update_issue_base : List Bytes
update_issue_base = codes "edit_issues" ∷ []

abbrev pub update_issue_with_subtasks : List Bytes
update_issue_with_subtasks = codes "edit_issues" ∷ codes "manage_subtasks" ∷ []

abbrev pub update_issue_base_with_agile : List Bytes
update_issue_base_with_agile = codes "edit_issues" ∷ codes "view_agile_queries" ∷ []

abbrev pub update_issue_with_subtasks_and_agile : List Bytes
update_issue_with_subtasks_and_agile =
    codes "edit_issues" ∷ codes "manage_subtasks" ∷ codes "view_agile_queries" ∷ []

abbrev pub notes_only_fields : List Bytes
notes_only_fields = codes "notes" ∷ codes "private_notes" ∷ []

abbrev pub agile_update_fields : List Bytes
agile_update_fields = codes "story_points" ∷ codes "agile_sprint_id" ∷ codes "agile_position" ∷ []

abbrev pub create_issue_base : List Bytes
create_issue_base = codes "add_issues" ∷ []

abbrev pub tag_list_scopes : List Bytes
tag_list_scopes = codes "create_issue_tags" ∷ codes "edit_issue_tags" ∷ []

-- `TOOL_SCOPES`.
unfoldable pub tool_scopes : List (Bytes × ScopeRule)
tool_scopes =
    (codes "get_current_user", fixed ([]))
    ∷ (codes "get_mcp_server_info", fixed ([]))
    ∷ (codes "list_redmine_projects", fixed (codes "view_project" ∷ []))
    ∷ (codes "list_redmine_trackers", fixed ([]))
    ∷ (codes "list_project_trackers", fixed (codes "view_project" ∷ []))
    ∷ (codes "list_redmine_issue_statuses", fixed ([]))
    ∷ (codes "list_redmine_issue_priorities", fixed ([]))
    ∷ (codes "list_redmine_users", fixed ([]))
    ∷ (codes "list_redmine_queries", fixed (codes "view_issues" ∷ []))
    ∷ (codes "list_project_issue_custom_fields", fixed ([]))
    ∷ (codes "summarize_project_status", fixed (codes "view_project" ∷ codes "view_issues" ∷ []))
    ∷ (codes "list_redmine_versions", fixed (codes "view_issues" ∷ []))
    ∷ (codes "manage_redmine_version", fixed (codes "manage_versions" ∷ []))
    ∷ (codes "list_project_members", fixed (codes "view_members" ∷ []))
    ∷ (codes "list_redmine_roles", fixed ([]))
    ∷ (codes "get_project_modules", fixed (codes "view_project" ∷ []))
    ∷ (codes "manage_project_member", fixed (codes "manage_members" ∷ []))
    ∷ (codes "get_redmine_issue", fixed (codes "view_issues" ∷ []))
    ∷ (codes "list_redmine_issues", fixed (codes "view_issues" ∷ []))
    ∷ (codes "search_redmine_issues", fixed (codes "search_project" ∷ codes "view_issues" ∷ []))
    ∷ (codes "list_subtasks", fixed (codes "view_issues" ∷ []))
    ∷ (codes "get_private_notes", fixed (codes "view_issues" ∷ codes "view_private_notes" ∷ []))
    ∷ (codes "list_time_entries", fixed (codes "view_time_entries" ∷ []))
    ∷ (
      codes "manage_time_entry",
      per_action (
          (codes "create", codes "log_time" ∷ [])
          ∷ (codes "update", codes "edit_time_entries" ∷ [])
          ∷ []),
    )
    ∷ (codes "list_time_entry_activities", fixed ([]))
    ∷ (codes "import_time_entries", fixed (codes "log_time" ∷ []))
    ∷ (codes "create_redmine_issue", fixed (codes "add_issues" ∷ []))
    ∷ (codes "update_redmine_issue", fixed (codes "edit_issues" ∷ []))
    ∷ (codes "delete_redmine_issue", fixed (codes "delete_issues" ∷ []))
    ∷ (codes "copy_issue", fixed (codes "view_issues" ∷ codes "add_issues" ∷ []))
    ∷ (
      codes "manage_issue_relation",
      per_action (
          (codes "list", codes "view_issues" ∷ [])
          ∷ (codes "create", codes "manage_issue_relations" ∷ [])
          ∷ (codes "delete", codes "manage_issue_relations" ∷ [])
          ∷ []),
    )
    ∷ (
      codes "manage_issue_watcher",
      per_action (
          (codes "add", codes "add_issue_watchers" ∷ [])
          ∷ (codes "remove", codes "delete_issue_watchers" ∷ [])
          ∷ []),
    )
    ∷ (
      codes "manage_issue_note",
      per_action (
          (codes "edit", codes "edit_issue_notes" ∷ [])
          ∷ (codes "set_private", codes "set_notes_private" ∷ [])
          ∷ []),
    )
    ∷ (
      codes "manage_issue_category",
      per_action (
          (codes "list", codes "view_issues" ∷ [])
          ∷ (codes "create", codes "manage_categories" ∷ [])
          ∷ (codes "update", codes "manage_categories" ∷ [])
          ∷ (codes "delete", codes "manage_categories" ∷ [])
          ∷ []),
    )
    ∷ (codes "search_entire_redmine", fixed (codes "search_project" ∷ []))
    ∷ (
      codes "manage_redmine_wiki_page",
      per_action (
          (codes "list", codes "view_wiki_pages" ∷ [])
          ∷ (codes "get", codes "view_wiki_pages" ∷ [])
          ∷ (codes "create", codes "edit_wiki_pages" ∷ [])
          ∷ (codes "update", codes "edit_wiki_pages" ∷ [])
          ∷ (codes "delete", codes "delete_wiki_pages" ∷ [])
          ∷ (codes "rename", codes "rename_wiki_pages" ∷ [])
          ∷ []),
    )
    ∷ (codes "get_gantt_chart", fixed (codes "view_issues" ∷ []))
    ∷ (codes "get_redmine_attachment", fixed (codes "view_files" ∷ []))
    ∷ (codes "list_files", fixed (codes "view_files" ∷ []))
    ∷ (codes "delete_file", fixed (codes "manage_files" ∷ []))
    ∷ (codes "upload_file", fixed (codes "manage_files" ∷ []))
    ∷ (codes "cleanup_attachment_files", fixed ([]))
    ∷ (codes "get_checklist", fixed ([]))
    ∷ (codes "create_checklist_item", fixed ([]))
    ∷ (codes "update_checklist_item", fixed ([]))
    ∷ (codes "manage_product", fixed ([]))
    ∷ (codes "manage_contact", fixed ([]))
    ∷ (
      codes "manage_document",
      per_action (
          (codes "list", codes "view_documents" ∷ [])
          ∷ (codes "get", codes "view_documents" ∷ [])
          ∷ (codes "create", codes "add_documents" ∷ [])
          ∷ (codes "update", codes "edit_documents" ∷ [])
          ∷ []),
    )
    ∷ []
