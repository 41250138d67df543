-- ===== src/Tools/Render/Stripped.antt =====
-- render.rs: what sanitize strips, and what it keeps.
use ruprogress_mcp.Base.{Bytes, List, [], bytes_eq, codes, contains, false, nat_eq, ◌++◌, ◌∷◌, ◌≡◌}

-- A text in its parts: the two delimiters, and text without "<" around them.
pub data Piece : Type 0 where
  opens : Piece
  closes : Piece
  plain : Bytes → Piece

abbrev pub spelled : List Piece → Bytes
spelled [] = []
spelled (opens ∷ ps) = codes "<<<untrusted:" ++ spelled ps
spelled (closes ∷ ps) = codes "<<</untrusted:" ++ spelled ps
spelled (plain text ∷ ps) = text ++ spelled ps

abbrev pub plain_text : List Piece → Bytes
plain_text [] = []
plain_text (opens ∷ ps) = plain_text ps
plain_text (closes ∷ ps) = plain_text ps
plain_text (plain text ∷ ps) = text ++ plain_text ps

-- No part of plain text holds a "<".
abbrev pub ArePlain : List Piece → Type 0
ArePlain [] = Unit
ArePlain (opens ∷ ps) = ArePlain ps
ArePlain (closes ∷ ps) = ArePlain ps
ArePlain (plain text ∷ ps) = (contains text b'<' ≡ false) × ArePlain ps

-- The parts but for the opening delimiters.
abbrev closed_text : List Piece → Bytes
closed_text [] = []
closed_text (opens ∷ ps) = closed_text ps
closed_text (closes ∷ ps) = codes "<<</untrusted:" ++ closed_text ps
closed_text (plain text ∷ ps) = text ++ closed_text ps
