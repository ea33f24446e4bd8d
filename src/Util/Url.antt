-- ===== src/Util/Url.antt =====
-- `hex_digit` and `url_decode` of src/util.c, and `url_encode` of src/html_render.c.
pub mod RoundTrip
use qemu_snapshot_web_manage.Prelude.{
  ℕ, ◌+◌, ◌-◌, ◌*◌, ◌/◌, ◌%◌, Bool, ◌&&◌, ◌||◌, Option, none, some, List, [], ◌∷◌, ◌++◌, leb, ltb,
  ◌==◌, if◌then◌else◌, Bytes,
}

-- The result -1 of the source is `none`.
unfoldable pub hex_digit : ℕ → Option ℕ
hex_digit c =
    if leb b'0' c && leb c b'9'
    then some (c - b'0')
    else if leb b'a' c && leb c b'f'
    then some (c - b'a' + 10)
    else if leb b'A' c && leb c b'F'
    then some (c - b'A' + 10)
    else none

-- `(char)(hi * 16 + lo)`, where both digits are there.
unfoldable pub join_digits : Option ℕ → Option ℕ → Option ℕ
join_digits (some hi) (some lo) = some (hi * 16 + lo)
join_digits _ _ = none

-- The byte for `%hl`, if the three bytes are an escape.
unfoldable pub percent : ℕ → ℕ → ℕ → Option ℕ
unfolding join_digits hex_digit
percent c h l = if c == b'%' then join_digits (hex_digit h) (hex_digit l) else none

abbrev pub plain : ℕ → ℕ
plain c = if c == b'+' then b' ' else c

-- The loop: what it writes to `out`. An escape needs two more bytes, `i + 2 < len`.
unfoldable pub decode_loop : Bytes → Bytes
unfolding percent
decode_loop [] = []
decode_loop (c ∷ []) = plain c ∷ []
decode_loop (c ∷ d ∷ []) = plain c ∷ decode_loop (d ∷ [])
decode_loop (c ∷ h ∷ l ∷ rest) = elim (percent c h l) [
  | some b ↦ b ∷ decode_loop rest
  | none ↦ plain c ∷ decode_loop (h ∷ l ∷ rest)
]

-- What a reader of the buffer sees: `%00` writes a NUL, which ends the string.
unfoldable pub c_string : Bytes → Bytes
c_string [] = []
c_string (c ∷ r) = if c == 0 then [] else c ∷ c_string r

unfoldable pub url_decode : Option Bytes → Option Bytes
unfolding decode_loop c_string
url_decode none = none
url_decode (some src) = some (c_string (decode_loop src))

-- The characters that `url_encode` copies.
unfoldable pub is_unreserved : ℕ → Bool
is_unreserved c =
    (leb b'A' c && leb c b'Z')
    || (leb b'a' c && leb c b'z')
    || (leb b'0' c && leb c b'9')
    || c == b'/'
    || c == b'-'
    || c == b'_'
    || c == b'.'
    || c == b'~'

-- A digit of `%02X`.
unfoldable pub hex_upper : ℕ → ℕ
hex_upper n = if ltb n 10 then n + b'0' else n - 10 + b'A'

unfoldable pub encode_byte : ℕ → Bytes
unfolding is_unreserved hex_upper
encode_byte c =
    if is_unreserved c then c ∷ [] else b'%' ∷ hex_upper (c / 16) ∷ hex_upper (c % 16) ∷ []

unfoldable pub url_encode : Bytes → Bytes
unfolding encode_byte
url_encode [] = []
url_encode (c ∷ s) = encode_byte c ++ url_encode s
