-- ===== src/Util/Base64.antt =====
-- `base64_decode` of src/util.c.
pub mod RoundTrip
use qemu_snapshot_web_manage.Prelude.{
  ℕ, ◌+◌, ◌-◌, ◌*◌, ◌/◌, ◌%◌, ◌^◌, Bool, true, false, ◌&&◌, ◌||◌, Option, none, some, [], ◌∷◌, leb,
  ◌==◌, if◌then◌else◌, Bytes,
}

-- `b64_table`: what it does not name is 0.
unfoldable pub b64_table : ℕ → ℕ
b64_table c =
    if leb b'A' c && leb c b'Z'
    then c - b'A'
    else if leb b'a' c && leb c b'z'
    then c - b'a' + 26
    else if leb b'0' c && leb c b'9'
    then c - b'0' + 52
    else if c == b'+'
    then 62
    else if c == b'/'
    then 63
    else 0

unfoldable pub is_skipped : ℕ → Bool
is_skipped c = c == b'=' || c == b'\n' || c == b'\r' || c == b' '

-- `(buf << 6) | v` on 32 bits; the low six bits of the shifted word are 0 and `v < 64`.
unfoldable pub shift_in : ℕ → ℕ → ℕ
shift_in buf v = buf * 64 % 2 ^ 32 + v

-- `(buf >> bits) & 0xFF`
unfoldable pub byte_at : ℕ → ℕ → ℕ
byte_at buf bits = buf / 2 ^ bits % 256

-- The loop, from the word `buf` of which the low `bits` bits are pending: what it writes to `out`.
unfoldable pub decode_from : ℕ → ℕ → Bytes → Bytes
unfolding b64_table is_skipped shift_in byte_at
decode_from buf bits [] = []
decode_from buf bits (c ∷ s) = elim (is_skipped c) [
  | true ↦ decode_from buf bits s
  | false ↦ elim (leb 8 (bits + 6)) [
    | true ↦
        byte_at (shift_in buf (b64_table c)) (bits + 6 - 8)
        ∷ decode_from (shift_in buf (b64_table c)) (bits + 6 - 8) s
    | false ↦ decode_from (shift_in buf (b64_table c)) (bits + 6) s
  ]
]

unfoldable pub base64_decode : Option Bytes → Option Bytes
unfolding decode_from
base64_decode none = none
base64_decode (some src) = some (decode_from 0 0 src)
