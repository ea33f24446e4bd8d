-- ===== src/Util/Escape.antt =====
-- The escaping of text, one byte at a time: `json_escape` of src/util.c and `html_escape` of
-- src/html_render.c.
pub mod Json
pub mod Html
use qemu_snapshot_web_manage.Prelude.{
  ℕ, Option, none, some, [], ◌∷◌, ◌++◌, ◌==◌, if◌then◌else◌, Bytes, codes,
}

-- The loop of an escaping function: what the `switch` writes for each byte, in order.
unfoldable pub escape_each : (ℕ → Bytes) → Bytes → Bytes
escape_each f [] = []
escape_each f (c ∷ s) = f c ++ escape_each f s

unfoldable pub json_byte : ℕ → Bytes
json_byte c =
    if c == b'"'
    then b'\\' ∷ b'"' ∷ []
    else if c == b'\\'
    then b'\\' ∷ b'\\' ∷ []
    else if c == b'\n'
    then b'\\' ∷ b'n' ∷ []
    else if c == b'\r'
    then b'\\' ∷ b'r' ∷ []
    else if c == b'\t'
    then b'\\' ∷ b't' ∷ []
    else c ∷ []

unfoldable pub json_escape : Option Bytes → Bytes
unfolding escape_each json_byte
json_escape none = []
json_escape (some src) = escape_each json_byte src

unfoldable pub html_byte : ℕ → Bytes
html_byte c =
    if c == b'<'
    then codes "&lt;"
    else if c == b'>'
    then codes "&gt;"
    else if c == b'&'
    then codes "&amp;"
    else if c == b'"'
    then codes "&quot;"
    else if c == b'\''
    then codes "&#39;"
    else c ∷ []

unfoldable pub html_escape : Option Bytes → Bytes
unfolding escape_each html_byte
html_escape none = []
html_escape (some raw) = escape_each html_byte raw
