-- ===== src/Tools/Caps.antt =====
-- tools/output.rs: the caps on the size of a tool's answer.
pub mod Prefix
pub mod Longest
pub mod Capped
use ruprogress_mcp.Std.Map.{HashMap}
use ruprogress_mcp.Std.Map as Map
use mathlib.Core.List.{reverse}
use ruprogress_mcp.Base.{
  Bool, Bytes, List, Option, [], bytes_eq, codes, false, if◌then◌else◌, leb, length, ltb, none, not,
  some, suc, take, true, zero, ℕ, ◌+◌, ◌-◌, ◌/◌, ◌||◌, ◌∷◌,
}

-- A field of an object; `J` is a JSON value that the caps do not look into.
pub data Node (J : Type 0) : Type 0 where
  array : List J → Node J
  fields : HashMap Bytes J → Node J
  leaf : J → Node J

pub data Value (J : Type 0) : Type 0 where
  object : List (Bytes × Node J) → Value J
  other : J → Value J

-- serde_json: its strings and Booleans, and the length of what it writes (0 if it fails).
pub record Json (J : Type 0) : Type 0 where
  pub of_bool : Bool → J
  pub of_string : Bytes → J
  pub serialized_len : Value J → ℕ

pub record OutputCaps : Type 0 where
  pub max_items : ℕ
  pub max_bytes : ℕ

-- The first field that is an array.
unfoldable pub first_array : {J : Type 0} → List (Bytes × Node J) → Option (List J)
first_array [] = none
first_array ((k, array xs) ∷ rest) = some xs
first_array ((k, fields m) ∷ rest) = first_array rest
first_array ((k, leaf j) ∷ rest) = first_array rest

unfoldable pub top_level_array : {J : Type 0} → Value J → Option (List J)
unfolding first_array
top_level_array (object fs) = first_array fs
top_level_array (other j) = none

-- The object with other items in that array.
unfoldable pub put_first : {J : Type 0} → List J → List (Bytes × Node J) → List (Bytes × Node J)
put_first ys [] = []
put_first ys ((k, array xs) ∷ rest) = (k, array ys) ∷ rest
put_first ys ((k, fields m) ∷ rest) = (k, fields m) ∷ put_first ys rest
put_first ys ((k, leaf j) ∷ rest) = (k, leaf j) ∷ put_first ys rest

unfoldable pub put_array : {J : Type 0} → List J → Value J → Value J
unfolding put_first
put_array ys (object fs) = object (put_first ys fs)
put_array ys (other j) = other j

-- The array and the spare items of `set_prefix`, each with the item that `pop` takes at its head.
pub record Split (J : Type 0) : Type 0 where
  pub stack : List J
  pub spare : List J

-- The loops of `set_prefix`: the one that pops the array, and the one that pops the spare items.
unfoldable pub shrink : {J : Type 0} → ℕ → List J → List J → Split J
shrink k [] spare = record { stack = []; spare = spare }
shrink k (x ∷ stack) spare =
    let fewer = shrink k stack (x ∷ spare) in
    if ltb k (length (x ∷ stack)) then fewer else record { stack = x ∷ stack; spare = spare }

unfoldable pub grow : {J : Type 0} → ℕ → List J → List J → Split J
grow k stack [] = record { stack = stack; spare = [] }
grow k stack (x ∷ spare) =
    let longer = grow k (x ∷ stack) spare in
    if ltb (length stack) k then longer else record { stack = stack; spare = x ∷ spare }

unfoldable pub set_prefix : {J : Type 0} → Split J → ℕ → Split J
unfolding shrink grow
set_prefix split k =
    let shrunk = shrink k split.stack split.spare in grow k shrunk.stack shrunk.spare

-- The answer with the array that the loops made.
abbrev pub with_split : {J : Type 0} → Value J → Split J → Value J
with_split value split = put_array (reverse split.stack) value

-- The binary search, on fuel: the end of the search, and where it left the items.
unfoldable pub search :
    {J : Type 0} → Json J → ℕ → Value J → ℕ → ℕ → ℕ → Split J → Option (ℕ × Split J)
unfolding set_prefix
search json max_bytes value zero lo hi split = none
search json max_bytes value (suc fuel) lo hi split =
    let mid = (lo + hi) / 2 in
    let halved = set_prefix split mid in
    let above = search json max_bytes value fuel (mid + 1) hi halved in
    let below = search json max_bytes value fuel lo mid halved in
    if not (ltb lo hi)
    then some (lo, split)
    else if leb (json.serialized_len (with_split value halved)) max_bytes
    then above
    else below

-- The items that stay in the array under the byte cap, with fuel for one turn more than the items.
unfoldable pub fit_bytes : {J : Type 0} → Json J → ℕ → Value J → List J → Option (List J)
unfolding search
fit_bytes json max_bytes value items =
    let whole : Split _ = record { stack = reverse items; spare = [] } in
    let found = search json max_bytes value (suc (length items)) 0 (length items) whole in
    if leb (json.serialized_len (put_array items value)) max_bytes then some items else elim found [
      | none ↦ none
      | some (lo, split) ↦ some (reverse (set_prefix split (lo - 1)).stack)
    ]

abbrev pub hint : Bytes
hint =
    codes
      "response truncated to fit REDMINE_MCP_MAX_RESPONSE_ITEMS/_BYTES; narrow the query if this tool supports filtering"

-- The `pagination` of an object is marked, if it is an object itself.
unfoldable pub mark_pagination :
    {J : Type 0} → Json J → List (Bytes × Node J) → List (Bytes × Node J)
mark_pagination json fs = elim (Map.get (codes "pagination") fs) [
  | some (fields m) ↦
      let marked = Map.insert (codes "truncated") (json.of_bool true) m in
      Map.insert (codes "pagination")
        (fields (Map.insert (codes "hint") (json.of_string hint) marked)) fs
  | _ ↦ fs
]

unfoldable pub mark : {J : Type 0} → Json J → Value J → Value J
unfolding mark_pagination
mark json (object fs) = object (mark_pagination json fs)
mark json (other j) = other j

-- What is left of the array: at most `max_items`, and as many of them as fit.
unfoldable pub kept_items : {J : Type 0} → Json J → OutputCaps → Value J → List J → Option (List J)
unfolding fit_bytes
kept_items json caps value items = fit_bytes json caps.max_bytes value (take caps.max_items items)

-- `apply_caps`.
unfoldable pub apply_caps : {J : Type 0} → Json J → OutputCaps → Value J → Option (Value J)
unfolding top_level_array kept_items mark put_array
apply_caps json caps value = elim (top_level_array value) [
  | none ↦ some value
  | some items ↦ elim (kept_items json caps value items) [
    | none ↦ none
    | some kept ↦
        let capped = put_array kept value in
        let truncated =
          ltb caps.max_items (length items)
          || ltb (length kept) (length (take caps.max_items items)) in
        some (if truncated then mark json capped else capped)
  ]
]
