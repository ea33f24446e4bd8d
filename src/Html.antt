-- ===== src/Html.antt =====
-- src/html_render.c: the string builder that the pages are put together with.
pub mod Pages
pub mod Builder
pub mod Template
pub mod Machines
pub mod Folders
pub mod Forms
pub mod Markup
use qemu_snapshot_web_manage.Prelude.{
  ℕ, ◌+◌, ◌*◌, ◌==◌, Option, none, some, List, [], ◌∷◌, ◌++◌, ltb, if◌then◌else◌, Bytes, length,
}

-- `buf` is the text in the first `len` of `cap` bytes, `NULL` once the text is taken.
pub record Strbuf : Type 0 where
  pub buf : Option Bytes
  pub len : ℕ
  pub cap : ℕ

unfoldable pub sb_init : ℕ → Strbuf
sb_init initial = record { buf = some []; len = 0; cap = if initial == 0 then 4096 else initial }

-- The capacity for `required` bytes.
abbrev pub ensured : ℕ → ℕ → ℕ
ensured required cap = if ltb cap required then required * 2 else cap

abbrev pub append_to : Strbuf → Bytes → Option Bytes → Strbuf
append_to sb s none = sb
append_to sb s (some buf) = record {
  buf = some (buf ++ s);
  len = sb.len + length s;
  cap = ensured (sb.len + length s + 1) sb.cap;
}

unfoldable pub sb_append : Strbuf → Option Bytes → Strbuf
sb_append sb none = sb
sb_append sb (some s) = append_to sb s sb.buf

-- `text` is the formatted text.
unfoldable pub sb_appendf : Strbuf → Bytes → Strbuf
sb_appendf sb text = append_to sb text sb.buf

unfoldable pub sb_finish : Strbuf → Option Bytes × Strbuf
sb_finish sb = (sb.buf, record { buf = none; len = 0; cap = 0 })
