-- ===== src/Util/Path.antt =====
-- `path_segment` of src/util.c.
pub mod Segments
use qemu_snapshot_web_manage.Prelude.{
  ℕ, zero, suc, ◌+◌, Option, none, some, [], ◌∷◌, ◌==◌, if◌then◌else◌, Bytes, length, before,
  strchr,
}
use qemu_snapshot_web_manage.Prelude.Int.{ℤ, pos, negsuc}

-- `(*end == '/') ? end + 1 : end`, where no slash leaves `end` at the end of the text.
unfoldable pub past_slash : Option Bytes → Bytes
past_slash none = []
past_slash (some []) = []
past_slash (some (c ∷ r)) = r

-- `NULL` for an empty segment.
unfoldable pub nonempty : Bytes → Option Bytes
nonempty [] = none
nonempty (c ∷ s) = some (c ∷ s)

-- `while (*p)`, with fuel for the rounds.
unfoldable pub segment_loop : ℕ → Bytes → ℕ → ℕ → Option Bytes
unfolding past_slash nonempty before strchr
segment_loop zero p seg index = none
segment_loop (suc fuel) [] seg index = none
segment_loop (suc fuel) (c ∷ p) seg index =
    let rest = segment_loop fuel (past_slash (strchr (c ∷ p) b'/')) (seg + 1) index in
    if seg == index then nonempty (before b'/' (c ∷ p)) else rest

unfoldable pub skip_leading_slash : Bytes → Bytes
skip_leading_slash [] = []
skip_leading_slash (c ∷ p) = if c == b'/' then p else c ∷ p

-- Each round takes at least one byte, so `strlen(url) + 1` rounds are enough.
unfoldable pub path_segment : Option Bytes → ℤ → Option Bytes
unfolding segment_loop skip_leading_slash
path_segment none index = none
path_segment (some url) (negsuc n) = none
path_segment (some url) (pos index) =
    segment_loop (suc (length url)) (skip_leading_slash url) 0 index
