-- ===== src/Attachments/Name.antt =====
-- attachments.rs: the name under which a download is stored. A text is its characters here.
pub mod Safe
use ruprogress_mcp.Std.Text.{split_words, add_word}
use ruprogress_mcp.Tools.Render.{is_control}
use ruprogress_mcp.Base.{
  ap, any, subst, sym, bytes_beq, false, ◌≢◌, ◌⊎◌, ◌∙◌, Bool, Bytes, List, [], all, arith, bytes_eq,
  codes, filter, if◌then◌else◌, is_empty, leb, length, length-take, nat_eq, not, refl, take, true,
  suc, zero, ℕ, ◌&&◌, ◌==◌, ◌||◌, ◌∷◌, ◌≡◌, ◌≤◌, Bool-cases, inl, inr, false,
}

abbrev pub max_basename_len : ℕ
max_basename_len = 200

-- `char::is_whitespace`.
unfoldable pub is_white : ℕ → Bool
is_white c =
    leb 9 c && leb c 13
    || c == 32
    || c == 133
    || c == 160
    || c == 5760
    || leb 8192 c && leb c 8202
    || c == 8232
    || c == 8233
    || c == 8239
    || c == 8287
    || c == 12288

unfoldable pub trim_left : Bytes → Bytes
unfolding is_white
trim_left [] = []
trim_left (c ∷ cs) = let rest = trim_left cs in if is_white c then rest else c ∷ cs

unfoldable pub trim_right : Bytes → Bytes
unfolding is_white
trim_right [] = []
trim_right (c ∷ cs) =
    let rest = trim_right cs in if is_empty rest && is_white c then [] else c ∷ rest

-- A part of a path that is a name: `Component::Normal`.
unfoldable pub is_normal : Bytes → Bool
is_normal part = not (part == codes "." || part == codes "..")

-- The last of the parts, and what stands in its place when there is none.
abbrev pub last_or : Bytes → List Bytes → Bytes
last_or none_left [] = none_left
last_or none_left (part ∷ parts) = last_or part parts

-- The parts of a path between its separators, as `Path::components` has them: none is empty.
unfoldable pub path_parts : Bytes → List Bytes
unfolding split_words
path_parts path = let (part, parts) = split_words (λ c. c == b'/') path in add_word part parts

unfoldable pub chosen_part : Bytes → Bytes
unfolding is_normal path_parts
chosen_part name = last_or [] (filter is_normal (path_parts name))

unfoldable pub truncated_name : Bytes → Bytes
unfolding trim_left trim_right is_control chosen_part
truncated_name name =
    take max_basename_len
      (trim_right (trim_left (filter (λ c. not (is_control c)) (chosen_part name))))

unfoldable pub sanitize_basename : Bytes → Bytes
unfolding truncated_name
sanitize_basename name =
    if is_empty (truncated_name name) then codes "attachment" else truncated_name name
