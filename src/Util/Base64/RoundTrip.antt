-- ===== src/Util/Base64/RoundTrip.antt =====
-- `base64_decode` inverts the standard encoding, and stays within its buffer.
use qemu_snapshot_web_manage.Prelude.{
  ℕ, ◌+◌, ◌-◌, ◌*◌, ◌/◌, ◌%◌, ◌≤◌, ◌<◌, ◌≡◌, refl, ◌∙◌, ap, true, false, some, [], ◌∷◌, leb, ltb,
  if◌then◌else◌, arith, length, All, Bytes,
}
use qemu_snapshot_web_manage.Util.Base64.{
  b64_table, is_skipped, shift_in, byte_at, decode_from, base64_decode,
}

-- The alphabet of RFC 4648.
abbrev b64_char : ℕ → ℕ
b64_char v =
    if ltb v 26
    then v + b'A'
    else if ltb v 52
    then v - 26 + b'a'
    else if ltb v 62
    then v - 52 + b'0'
    else if ltb v 63
    then b'+'
    else b'/'

-- The standard encoding, three bytes to four characters, padded by `=`.
unfoldable pub base64_encode : Bytes → Bytes
base64_encode [] = []
base64_encode (a ∷ []) = b64_char (a / 4) ∷ b64_char (a % 4 * 16) ∷ b'=' ∷ b'=' ∷ []
base64_encode (a ∷ b ∷ []) =
    b64_char (a / 4) ∷ b64_char (a % 4 * 16 + b / 16) ∷ b64_char (b % 16 * 4) ∷ b'=' ∷ []
base64_encode (a ∷ b ∷ c ∷ s) =
    b64_char (a / 4)
    ∷ b64_char (a % 4 * 16 + b / 16)
    ∷ b64_char (b % 16 * 4 + c / 64)
    ∷ b64_char (c % 64)
    ∷ base64_encode s

abbrev pub IsOctet : ℕ → Type 0
IsOctet a = a < 256

b64_table-b64_char : (v : ℕ) → v < 64 → b64_table (b64_char v) ≡ v
unfolding b64_table
b64_table-b64_char v h = ground arith

is_skipped-b64_char : (v : ℕ) → v < 64 → is_skipped (b64_char v) ≡ false
unfolding is_skipped
is_skipped-b64_char v h = ground arith

decode_from-first :
    (buf v : ℕ) (s : Bytes)
    → v < 64
    → decode_from buf 0 (b64_char v ∷ s) ≡ decode_from (shift_in buf v) 6 s
unfolding decode_from
decode_from-first buf v s h =
    rw (is_skipped-b64_char v h, decode_from) (rw (b64_table-b64_char v h))

decode_from-later :
    (buf bits bits' v : ℕ) (s : Bytes)
    → v < 64
    → bits + 6 ≡ bits' + 8
    → decode_from buf bits (b64_char v ∷ s)
      ≡ byte_at (shift_in buf v) bits' ∷ decode_from (shift_in buf v) bits' s
unfolding decode_from
decode_from-later buf bits bits' v s h e =
    let ready : leb 8 (bits + 6) ≡ true = ground arith in
    let left : bits + 6 - 8 ≡ bits' = omega arith in
    rw (is_skipped-b64_char v h, decode_from) (rw ready (rw (left, b64_table-b64_char v h)))

decode_from-skip :
    (buf bits c : ℕ) (s : Bytes)
    → is_skipped c ≡ true
    → decode_from buf bits (c ∷ s) ≡ decode_from buf bits s
unfolding decode_from
decode_from-skip buf bits c s h = rw (h, decode_from)

-- The three bytes of a group, whatever the word held before.
first_byte :
    (w a r : ℕ) → a < 256 → r < 16 → byte_at (shift_in (shift_in w (a / 4)) (a % 4 * 16 + r)) 4 ≡ a
unfolding byte_at shift_in
first_byte w a r h k = omega arith

second_byte :
    (w y b r : ℕ)
    → y < 4
    → b < 256
    → r < 4
    → byte_at (shift_in (shift_in w (y * 16 + b / 16)) (b % 16 * 4 + r)) 2 ≡ b
unfolding byte_at shift_in
second_byte w y b r g h k = omega arith

third_byte :
    (w z c : ℕ) → z < 16 → c < 256 → byte_at (shift_in (shift_in w (z * 4 + c / 64)) (c % 64)) 0 ≡ c
unfolding byte_at shift_in
third_byte w z c g h = omega arith

decode_from-two :
    (w u v : ℕ) (s : Bytes)
    → u < 64
    → v < 64
    → decode_from w 0 (b64_char u ∷ b64_char v ∷ s)
      ≡ byte_at (shift_in (shift_in w u) v) 4 ∷ decode_from (shift_in (shift_in w u) v) 4 s
decode_from-two w u v s g h =
    decode_from-first w u (b64_char v ∷ s) g
    ∙ decode_from-later (shift_in w u) 6 4 v s h (omega arith)

decode_from-byte :
    (w bits bits' v b : ℕ) (s : Bytes)
    → v < 64
    → bits + 6 ≡ bits' + 8
    → byte_at (shift_in w v) bits' ≡ b
    → decode_from w bits (b64_char v ∷ s) ≡ b ∷ decode_from (shift_in w v) bits' s
decode_from-byte w bits bits' v b s h e k = rw (← k) (decode_from-later w bits bits' v s h e)

decode_from-pad : (w bits : ℕ) (s : Bytes) → decode_from w bits (b'=' ∷ s) ≡ decode_from w bits s
unfolding decode_from
decode_from-pad w bits s = refl

-- The first two characters of a group give its first byte.
decode_from-head :
    (w a r : ℕ) (s : Bytes)
    → a < 256
    → r < 16
    → decode_from w 0 (b64_char (a / 4) ∷ b64_char (a % 4 * 16 + r) ∷ s)
      ≡ a ∷ decode_from (shift_in (shift_in w (a / 4)) (a % 4 * 16 + r)) 4 s
decode_from-head w a r s h k =
    decode_from-two w (a / 4) (a % 4 * 16 + r) s (omega arith) (omega arith)
    ∙ ap (λ b. b ∷ decode_from (shift_in (shift_in w (a / 4)) (a % 4 * 16 + r)) 4 s)
        (first_byte w a r h k)

-- Decoding a group from any word gives its bytes, and leaves no bit pending.
decode_from-base64_encode :
    (w : ℕ) (s : Bytes) → All IsOctet s → decode_from w 0 (base64_encode s) ≡ s
unfolding base64_encode decode_from
decode_from-base64_encode w [] h = refl
decode_from-base64_encode w (a ∷ []) h =
    let zero_low : a % 4 * 16 + 0 ≡ a % 4 * 16 = omega arith in
    rw (← zero_low) (decode_from-head w a 0 (b'=' ∷ b'=' ∷ []) h.0 (omega arith))
decode_from-base64_encode w (a ∷ b ∷ []) h =
    let word = shift_in w (a / 4) in
    let low : b % 16 * 4 + 0 ≡ b % 16 * 4 = omega arith in
    decode_from-head w a (b / 16) (b64_char (b % 16 * 4) ∷ b'=' ∷ []) h.0 (omega arith)
    ∙ ap (◌∷◌ a) (
        rw (← low) (
          decode_from-byte (shift_in word (a % 4 * 16 + b / 16)) 4 2 (b % 16 * 4 + 0) b (b'=' ∷ [])
            (omega arith) (omega arith)
            (second_byte word (a % 4) b 0 (omega arith) h.1.0 (omega arith))))
decode_from-base64_encode w (a ∷ b ∷ c ∷ s) h =
    let word = shift_in w (a / 4) in
    let word2 = shift_in word (a % 4 * 16 + b / 16) in
    let last = b64_char (c % 64) ∷ base64_encode s in
    let word3 = shift_in word2 (b % 16 * 4 + c / 64) in
    decode_from-head w a (b / 16) (b64_char (b % 16 * 4 + c / 64) ∷ last) h.0 (omega arith)
    ∙ ap (◌∷◌ a) (
        decode_from-byte word2 4 2 (b % 16 * 4 + c / 64) b last (omega arith) (omega arith)
          (second_byte word (a % 4) b (c / 64) (omega arith) h.1.0 (omega arith))
        ∙ ap (◌∷◌ b) (
            decode_from-byte word3 2 0 (c % 64) c (base64_encode s) (omega arith) (omega arith)
              (third_byte word2 (b % 16) c (omega arith) h.1.1.0)
            ∙ ap (◌∷◌ c) (decode_from-base64_encode (shift_in word3 (c % 64)) s h.1.1.1)))

-- Decoding gives back any sequence of bytes from its standard encoding.
pub base64_decode-base64_encode :
    (s : Bytes) → All IsOctet s → base64_decode (some (base64_encode s)) ≡ some s
unfolding base64_decode
base64_decode-base64_encode s h = ap some (decode_from-base64_encode 0 s h)

-- What the loop writes takes no more bits than it has read.
length-decode_from-le :
    (buf bits : ℕ) (s : Bytes)
    → bits < 8
    → 8 * length (decode_from buf bits s) ≤ 6 * length s + bits
unfolding decode_from
length-decode_from-le buf bits [] h = omega arith
length-decode_from-le buf bits (c ∷ s) h = ground (
  arith,
  length-decode_from-le buf bits s h,
  length-decode_from-le (shift_in buf (b64_table c)) (bits + 6 - 8) s,
  length-decode_from-le (shift_in buf (b64_table c)) (bits + 6) s,
)

-- On any text, well-formed or not, the output and its final NUL fit the buffer of
-- `(slen / 4) * 3 + 4` bytes.
pub length-base64_decode-le :
    (s out : Bytes) → base64_decode (some s) ≡ some out → length out + 1 ≤ length s / 4 * 3 + 4
unfolding base64_decode
length-base64_decode-le s out e =
    let size : length (decode_from 0 0 s) ≡ length out = ground arith in
    omega (arith, length-decode_from-le 0 0 s (omega arith))
