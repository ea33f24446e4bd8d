-- ===== src/Html/Builder.antt =====
-- The string builder of src/html_render.c stays within its block and keeps what is appended.
use qemu_snapshot_web_manage.Prelude.{◌+◌, ◌≤◌, ◌≡◌, some, List, [], ◌∷◌, ◌++◌, Bytes, length}
use qemu_snapshot_web_manage.Html.{Strbuf, sb_append, sb_appendf}

-- A text that is appended: as it is, or through a format.
pub data Piece : Type 0 where
  plain formatted : Bytes → Piece

abbrev pub text_of : Piece → Bytes
text_of (plain s) = s
text_of (formatted s) = s

abbrev pub concat : List Piece → Bytes
concat [] = []
concat (p ∷ ps) = text_of p ++ concat ps

abbrev pub append_piece : Strbuf → Piece → Strbuf
append_piece sb (plain s) = sb_append sb (some s)
append_piece sb (formatted s) = sb_appendf sb s

unfoldable pub append_all : Strbuf → List Piece → Strbuf
append_all sb [] = sb
append_all sb (p ∷ ps) = append_all (append_piece sb p) ps

-- The builder holds the text, its length, and room for its NUL.
pub record Holds (sb : Strbuf) (s : Bytes) : Type 0 where
  pub holds : sb.buf ≡ some s
  pub size : sb.len ≡ length s
  pub fits : length s + 1 ≤ sb.cap
