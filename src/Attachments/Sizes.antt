-- ===== src/Attachments/Sizes.antt =====
-- attachments.rs: what the stored files take.
use ruprogress_mcp.Attachments.Store.{StoredFile, remove_each, total_size}
use ruprogress_mcp.Std.Map.{HashMap}
use ruprogress_mcp.Std.Map as Map
use ruprogress_mcp.Base.{Bytes, List, [], arith, bytes_eq, ℕ, ◌+◌, ◌∷◌, ◌≤◌}

-- Every stored file is at most as large as a download may be.
abbrev pub IsSmall : ℕ → HashMap Bytes StoredFile → Type 0
IsSmall limit [] = Unit
IsSmall limit ((uuid, f) ∷ entries) = (f.size ≤ limit) × IsSmall limit entries

pub insert-IsSmall :
    (limit : ℕ) (uuid : Bytes) (f : StoredFile) (entries : HashMap Bytes StoredFile)
    → f.size ≤ limit
    → IsSmall limit entries
    → IsSmall limit (Map.insert uuid f entries)
      × (total_size (Map.insert uuid f entries) ≤ f.size + total_size entries)
unfolding Map.insert
insert-IsSmall limit uuid f [] h hs = ((h, tt), omega arith)
insert-IsSmall limit uuid f ((j, g) ∷ entries) h (small, hs) =
    ground (arith, insert-IsSmall limit uuid f entries h hs)

pub remove-IsSmall :
    (limit : ℕ) (uuid : Bytes) (entries : HashMap Bytes StoredFile)
    → IsSmall limit entries
    → IsSmall limit (Map.remove uuid entries)
      × (total_size (Map.remove uuid entries) ≤ total_size entries)
unfolding Map.remove
remove-IsSmall limit uuid [] h = (tt, omega arith)
remove-IsSmall limit uuid ((j, g) ∷ entries) (small, hs) =
    ground (arith, remove-IsSmall limit uuid entries hs)

pub remove_each-IsSmall :
    (limit : ℕ) (uuids : List Bytes) (entries : HashMap Bytes StoredFile)
    → IsSmall limit entries
    → IsSmall limit (remove_each uuids entries)
      × (total_size (remove_each uuids entries) ≤ total_size entries)
remove_each-IsSmall limit [] entries h = (h, omega arith)
remove_each-IsSmall limit (uuid ∷ uuids) entries h =
    let (small, less) = remove-IsSmall limit uuid entries h in
    let (smaller, least) = remove_each-IsSmall limit uuids (Map.remove uuid entries) small in
    (smaller, omega (arith, less, least))
