-- ===== src/Html/Template.antt =====
-- How the pages of src/html_render.c are put together: the calls of the string builder, each with fixed
-- text, escaped texts and numbers.
use qemu_snapshot_web_manage.Prelude.{
  ℕ, ◌+◌, ◌/◌, ◌%◌, ltb, Option, none, some, List, [], ◌∷◌, ◌++◌, if◌then◌else◌, Bytes, codes,
}
use Prim.Native.String.{String}
use qemu_snapshot_web_manage.Prelude.Int.{ℤ}
use qemu_snapshot_web_manage.Server.{show_long}
use qemu_snapshot_web_manage.Util.Escape.{html_escape}
use qemu_snapshot_web_manage.Html.{Strbuf, sb_init, sb_appendf, sb_finish}

-- The bytes of a character of the source, which is in UTF-8.
unfoldable pub utf8 : ℕ → Bytes
utf8 c =
    if ltb c 0x80
    then c ∷ []
    else if ltb c 0x800
    then (0xc0 + c / 64) ∷ (0x80 + c % 64) ∷ []
    else if ltb c 0x10000
    then (0xe0 + c / 4096) ∷ (0x80 + c / 64 % 64) ∷ (0x80 + c % 64) ∷ []
    else (0xf0 + c / 262144) ∷ (0x80 + c / 4096 % 64) ∷ (0x80 + c / 64 % 64) ∷ (0x80 + c % 64) ∷ []

unfoldable pub encode : Bytes → Bytes
encode [] = []
encode (c ∷ s) = utf8 c ++ encode s

unfoldable pub text : String → Bytes
text s = encode (codes s)

-- The selector for the coloured form of the character before it, U+FE0F.
abbrev pub variation : Bytes
variation = 0xef ∷ 0xb8 ∷ 0x8f ∷ []

-- A part of a call: text of the program, `%s` with a text that `html_escape` has gone over, and a
-- number.
pub data Part : Type 0 where
  raw : Bytes → Part
  escaped : Option Bytes → Part
  number : ℤ → Part

abbrev pub part_text : Part → Bytes
part_text (raw s) = s
part_text (escaped t) = html_escape t
part_text (number n) = show_long n

unfoldable pub formatted : List Part → Bytes
formatted [] = []
formatted (p ∷ ps) = part_text p ++ formatted ps

unfoldable pub append_calls : Strbuf → List (List Part) → Strbuf
append_calls sb [] = sb
append_calls sb (call ∷ calls) = append_calls (sb_appendf sb (formatted call)) calls

abbrev or_nothing : Option Bytes → Bytes
or_nothing none = []
or_nothing (some s) = s

-- The calls from `sb_init` to `sb_finish`.
unfoldable pub built : ℕ → List (List Part) → Bytes
built initial calls = or_nothing (sb_finish (append_calls (sb_init initial) calls)).0
