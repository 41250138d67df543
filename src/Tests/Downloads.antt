-- ===== src/Tests/Downloads.antt =====
-- Downloads into a small store, and names that Redmine may send.
use ruprogress_mcp.Attachments.Name.{max_basename_len, sanitize_basename}
use ruprogress_mcp.Attachments.Store.{new_store, total_size}
use ruprogress_mcp.Attachments.Downloads.{Attachment, Event, begins, fails, finishes, receives, run}
use ruprogress_mcp.Attachments.Sizes.{IsSmall}
use ruprogress_mcp.Attachments.Within.{held, run-within}
use ruprogress_mcp.Std.Map as Map
use ruprogress_mcp.Attachments.Name.Safe.{is_dropped, is_safe, sanitize_basename-all}
use ruprogress_mcp.Base.{
  any, ◌≢◌, ◌⊎◌, List, [], all, arith, bytes_beq, codes, false, is_empty, length, none, refl, true,
  ℕ, ◌+◌, ◌∷◌, ◌≡◌, ◌≤◌,
}

abbrev report : ℕ → Attachment
report n = record {
  id = n;
  attachment_name = codes "report.pdf";
  filesize = 10;
  attachment_type = none;
}

-- Two downloads begin; the first grows and ends, and the second fails.
abbrev two_downloads : List Event
two_downloads =
    begins (report 1) (codes "a") true
    ∷ begins (report 2) (codes "b") true
    ∷ receives 1 30 true
    ∷ finishes 1 9 5
    ∷ fails 0
    ∷ []

two_downloads-size :
    total_size (run two_downloads (new_store (codes "/tmp") 60 50 100, [])).0.inner.entries ≡ 30
unfolding run Map.insert
two_downloads-size = refl

-- What is left of a name after its control characters and white space are removed may be `..`.
spaced_parent : sanitize_basename (codes "a/ ..") ≡ codes ".."
unfolding sanitize_basename bytes_beq
spaced_parent = refl

traversal : sanitize_basename (codes "../../etc/passwd") ≡ codes "passwd"
unfolding sanitize_basename bytes_beq
traversal = refl

run-within_example :
    ((run two_downloads (new_store (codes "/tmp") 60 50 100, [])).0.inner.in_flight
      ≡ held (run two_downloads (new_store (codes "/tmp") 60 50 100, [])).1)
    × (total_size (run two_downloads (new_store (codes "/tmp") 60 50 100, [])).0.inner.entries
          + (run two_downloads (new_store (codes "/tmp") 60 50 100, [])).0.inner.in_flight
        ≤ 100)
    × IsSmall 50 (run two_downloads (new_store (codes "/tmp") 60 50 100, [])).0.inner.entries
run-within_example = run-within (codes "/tmp") 60 50 100 two_downloads (omega arith)

sanitize_basename-all_example :
    (all is_safe (sanitize_basename (codes "../etc/..")) ≡ true)
    × (is_empty (sanitize_basename (codes "../etc/..")) ≡ false)
    × (length (sanitize_basename (codes "../etc/..")) ≤ max_basename_len)
    × (((sanitize_basename (codes "../etc/..") ≢ codes ".")
          × (sanitize_basename (codes "../etc/..") ≢ codes ".."))
        ⊎ (any is_dropped (codes "../etc/..") ≡ true))
sanitize_basename-all_example = sanitize_basename-all (codes "../etc/..")
