-- ===== src/Util/Escape/Json.antt =====
-- A JSON reader gets back the text that `json_escape` wrote.
use qemu_snapshot_web_manage.Prelude.{
  ℕ, ◌*◌, ◌+◌, ◌≤◌, ◌≡◌, ◌⊎◌, refl, ◌≢◌, true, false, ◌∙◌, ap, Option, none, some, [], ◌∷◌, ◌++◌,
  ltb, ◌==◌, if◌then◌else◌, arith, length, length-append, All, Bytes, append_assoc,
}
use qemu_snapshot_web_manage.Util.Escape.{escape_each, json_byte, json_escape}

abbrev push : ℕ → Option (Bytes × Bytes) → Option (Bytes × Bytes)
push c none = none
push c (some (s, rest)) = some (c ∷ s, rest)

-- The byte that a two-byte escape of JSON stands for. (`\u` stands for none of the bytes at hand.)
abbrev escaped : ℕ → Option ℕ
escaped c =
    if c == b'n'
    then some b'\n'
    else if c == b'r'
    then some b'\r'
    else if c == b't'
    then some b'\t'
    else if c == b'b'
    then some 8
    else if c == b'f'
    then some 12
    else if c == b'"'
    then some c
    else if c == b'\\'
    then some c
    else if c == b'/'
    then some c
    else none

abbrev push? : Option ℕ → Option (Bytes × Bytes) → Option (Bytes × Bytes)
push? none r = none
push? (some c) r = push c r

-- How JSON reads a string behind its opening quote: the text, and what stands behind the closing
-- quote. A control character must not stand in it bare.
unfoldable pub read_string : Bytes → Option (Bytes × Bytes)
read_string [] = none
read_string (c ∷ []) = if c == b'"' then some ([], []) else none
read_string (c ∷ d ∷ r) = elim (c == b'"') [
  | true ↦ some ([], d ∷ r)
  | false ↦ elim (c == b'\\') [
    | true ↦ push? (escaped d) (read_string r)
    | false ↦ elim (ltb c 32) [ true ↦ none | false ↦ push c (read_string (d ∷ r)) ]
  ]
]

-- A byte that is printable, or a control character for which there is an escape.
abbrev pub IsText : ℕ → Type 0
IsText c = (32 ≤ c) ⊎ ((c ≡ b'\n') ⊎ ((c ≡ b'\r') ⊎ (c ≡ b'\t')))

read_string-json_byte :
    (c d : ℕ) (r : Bytes)
    → IsText c
    → read_string (json_byte c ++ d ∷ r) ≡ push c (read_string (d ∷ r))
unfolding read_string json_byte
read_string-json_byte c d r h = ground arith

read_string-json_step :
    (c : ℕ) (t : Bytes)
    → IsText c
    → t ≢ []
    → read_string (json_byte c ++ t) ≡ push c (read_string t)
read_string-json_step c [] h ne = absurd (ne refl)
read_string-json_step c (d ∷ r) h ne = read_string-json_byte c d r h

append-ne-nil : (s : Bytes) (d : ℕ) (r : Bytes) → s ++ d ∷ r ≢ []
append-ne-nil [] d r = ground arith
append-ne-nil (c ∷ s) d r = ground arith

read_string-quote : (rest : Bytes) → read_string (b'"' ∷ rest) ≡ some ([], rest)
unfolding read_string
read_string-quote [] = refl
read_string-quote (d ∷ r) = refl

read_string-escape_each :
    (s rest : Bytes)
    → All IsText s
    → read_string (escape_each json_byte s ++ b'"' ∷ rest) ≡ some (s, rest)
unfolding escape_each
read_string-escape_each [] rest h = read_string-quote rest
read_string-escape_each (c ∷ s) rest h = rw append_assoc (
    read_string-json_step c (escape_each json_byte s ++ b'"' ∷ rest) h.0
      (append-ne-nil (escape_each json_byte s) b'"' rest)
    ∙ ap (push c) (read_string-escape_each s rest h.1))

-- A text whose only control bytes are newline, carriage return and tab, put between quotes after
-- escaping, is read as the text itself, and reading stops right behind it.
pub read_string-json_escape :
    (s rest : Bytes)
    → All IsText s
    → read_string (json_escape (some s) ++ b'"' ∷ rest) ≡ some (s, rest)
unfolding json_escape
read_string-json_escape s rest h = read_string-escape_each s rest h

length-json_byte-le : (c : ℕ) → length (json_byte c) ≤ 2
unfolding json_byte
length-json_byte-le c = ground arith

-- The escaped text fits the buffer of `len * 2 + 1` bytes.
pub length-json_escape-le : (s : Bytes) → length (json_escape (some s)) + 1 ≤ length s * 2 + 1
unfolding json_escape escape_each
length-json_escape-le [] = omega arith
length-json_escape-le (c ∷ s) = omega (
  arith,
  length-append (json_byte c) (escape_each json_byte s),
  length-json_byte-le c,
  length-json_escape-le s,
)
