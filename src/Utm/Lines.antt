-- ===== src/Utm/Lines.antt =====
-- The texts that `utm_list_vms` of src/utm_backend.c takes its output apart with.
use qemu_snapshot_web_manage.Prelude.{ℕ, Bool, ◌||◌, List, [], ◌∷◌, ◌==◌, if◌then◌else◌, Bytes}

-- A byte in front of the first line, where `s` is the text behind it.
abbrev pub with_byte : ℕ → Bytes → List Bytes → List Bytes
with_byte c [] lines = (c ∷ []) ∷ lines
with_byte c (d ∷ s) [] = (c ∷ []) ∷ []
with_byte c (d ∷ s) (line ∷ lines) =
    if d == b'\n' then (c ∷ []) ∷ line ∷ lines else (c ∷ line) ∷ lines

-- What the calls of `strtok_r(…, "\n", …)` give: the lines that are not empty.
unfoldable pub tokens : Bytes → List Bytes
tokens [] = []
tokens (c ∷ s) = let rest = tokens s in if c == b'\n' then rest else with_byte c s rest

abbrev pub is_blank : ℕ → Bool
is_blank c = c == b' ' || c == b'\t'

unfoldable pub skip_blanks : Bytes → Bytes
skip_blanks [] = []
skip_blanks (c ∷ s) = let rest = skip_blanks s in if is_blank c then rest else c ∷ s

-- The bytes up to a blank, and those behind that blank.
unfoldable pub word : Bytes → Bytes
word [] = []
word (c ∷ s) = let rest = word s in if is_blank c then [] else c ∷ rest

unfoldable pub behind_word : Bytes → Bytes
behind_word [] = []
behind_word (c ∷ s) = let rest = behind_word s in if is_blank c then s else rest

abbrev kept : ℕ → Bytes → Bytes
kept c [] = if is_blank c || c == b'\r' then [] else c ∷ []
kept c (d ∷ s) = c ∷ d ∷ s

-- The name without the blanks and carriage returns at its end.
unfoldable pub trim : Bytes → Bytes
trim [] = []
trim (c ∷ s) = kept c (trim s)
