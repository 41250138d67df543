-- ===== src/OauthProxy/Advertised.antt =====
-- oauth/scopes.rs: the scopes that a deployment advertises.
use ruprogress_mcp.Base.{Bool, Bytes, List, [], codes, if◌then◌else◌, ◌++◌, ◌∷◌}

unfoldable pub read_scopes : List Bytes
read_scopes =
    codes "view_project"
    ∷ codes "search_project"
    ∷ codes "view_members"
    ∷ codes "view_issues"
    ∷ codes "view_documents"
    ∷ codes "view_files"
    ∷ codes "view_wiki_pages"
    ∷ codes "view_time_entries"
    ∷ codes "view_private_notes"
    ∷ codes "view_issue_watchers"
    ∷ []

unfoldable pub write_scopes : List Bytes
write_scopes =
    codes "add_issues"
    ∷ codes "edit_issues"
    ∷ codes "delete_issues"
    ∷ codes "manage_subtasks"
    ∷ codes "manage_issue_relations"
    ∷ codes "add_issue_watchers"
    ∷ codes "delete_issue_watchers"
    ∷ codes "add_issue_notes"
    ∷ codes "edit_issue_notes"
    ∷ codes "set_notes_private"
    ∷ codes "log_time"
    ∷ codes "edit_time_entries"
    ∷ codes "manage_versions"
    ∷ codes "manage_categories"
    ∷ codes "manage_wiki"
    ∷ codes "edit_wiki_pages"
    ∷ codes "rename_wiki_pages"
    ∷ codes "delete_wiki_pages"
    ∷ codes "add_documents"
    ∷ codes "edit_documents"
    ∷ codes "delete_documents"
    ∷ codes "manage_files"
    ∷ codes "manage_members"
    ∷ []

unfoldable pub agile_read_scopes : List Bytes
agile_read_scopes = codes "view_agile_queries" ∷ []

unfoldable pub tags_read_scopes : List Bytes
tags_read_scopes = codes "view_issue_tags" ∷ []

unfoldable pub tags_write_scopes : List Bytes
tags_write_scopes = codes "create_issue_tags" ∷ codes "edit_issue_tags" ∷ []

unfoldable pub advertised : Bool → Bool → Bool → List Bytes
unfolding read_scopes write_scopes agile_read_scopes tags_read_scopes tags_write_scopes
advertised read_only agile tags =
    read_scopes
    ++ (if read_only then [] else write_scopes)
    ++ (if agile then agile_read_scopes else [])
    ++ (if tags then tags_read_scopes ++ (if read_only then [] else tags_write_scopes) else [])
