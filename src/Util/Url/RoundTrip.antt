-- ===== src/Util/Url/RoundTrip.antt =====
-- Decoding undoes encoding, and never outgrows the buffer.
use qemu_snapshot_web_manage.Prelude.{
  ℕ, ◌/◌, ◌%◌, ◌≤◌, ◌<◌, ◌≡◌, ◌≢◌, refl, ap, ◌∙◌, inl, inr, true, none, some, [], ◌∷◌, ◌++◌, arith,
  length, All, Bytes, IsByte, Bool-cases, Option-cases,
}
use qemu_snapshot_web_manage.Util.Url.{
  hex_digit, hex_upper, percent, plain, decode_loop, c_string, url_decode, is_unreserved,
  encode_byte, url_encode,
}

hex_digit-hex_upper : (n : ℕ) → n < 16 → hex_digit (hex_upper n) ≡ some n
unfolding hex_digit hex_upper
hex_digit-hex_upper n h = ground arith

-- The escape that `url_encode` writes is read back.
percent-encode : (c : ℕ) → c < 256 → percent b'%' (hex_upper (c / 16)) (hex_upper (c % 16)) ≡ some c
unfolding percent
percent-encode c h =
    rw (hex_digit-hex_upper (c / 16) (omega arith), hex_digit-hex_upper (c % 16) (omega arith))
      (ap some (omega arith))

percent-ne : (c h l : ℕ) → c ≢ b'%' → percent c h l ≡ none
unfolding percent
percent-ne c h l ne = ground arith

decode_loop-plain : (c : ℕ) (s : Bytes) → c ≢ b'%' → decode_loop (c ∷ s) ≡ plain c ∷ decode_loop s
unfolding decode_loop
decode_loop-plain c [] ne = refl
decode_loop-plain c (d ∷ []) ne = refl
decode_loop-plain c (h ∷ l ∷ s) ne = rw (percent-ne c h l ne, decode_loop)

decode_loop-percent :
    (h l b : ℕ) (s : Bytes)
    → percent b'%' h l ≡ some b
    → decode_loop (b'%' ∷ h ∷ l ∷ s) ≡ b ∷ decode_loop s
unfolding decode_loop
decode_loop-percent h l b s e = rw (decode_loop, e)

is_unreserved-ne : (c : ℕ) → is_unreserved c ≡ true → (c ≢ b'%') × (plain c ≡ c)
unfolding is_unreserved
is_unreserved-ne c h = ground arith

decode_loop-encode_byte :
    (c : ℕ) (s : Bytes) → c < 256 → decode_loop (encode_byte c ++ s) ≡ c ∷ decode_loop s
unfolding encode_byte
decode_loop-encode_byte c s h = elim (Bool-cases (is_unreserved c)) [
  | inl safe ↦
      let (ne, same) = is_unreserved-ne c safe in
      rw (safe) (decode_loop-plain c s ne ∙ ap (λ d. d ∷ decode_loop s) same)
  | inr coded ↦ rw coded (decode_loop-percent _ _ c s (percent-encode c h))
]

decode_loop-url_encode : (s : Bytes) → All IsByte s → decode_loop (url_encode s) ≡ s
unfolding url_encode decode_loop
decode_loop-url_encode [] h = refl
decode_loop-url_encode (c ∷ s) h =
    decode_loop-encode_byte c (url_encode s) h.0.1 ∙ ap (◌∷◌ c) (decode_loop-url_encode s h.1)

pub c_string_self : (s : Bytes) → All IsByte s → c_string s ≡ s
unfolding c_string
c_string_self [] h = refl
c_string_self (c ∷ s) h = ground (arith, c_string_self s h.1)

-- Whatever bytes a path holds, a client that decodes the links of the page gets the path back.
pub url_decode-url_encode : (s : Bytes) → All IsByte s → url_decode (some (url_encode s)) ≡ some s
unfolding url_decode
url_decode-url_encode s h = rw (decode_loop-url_encode s h) (ap some (c_string_self s h))

-- The decoded text fits the buffer of `strlen(src) + 1` bytes.
pub length-decode_loop-le : (s : Bytes) → length (decode_loop s) ≤ length s
unfolding decode_loop
length-decode_loop-le [] = omega arith
length-decode_loop-le (c ∷ []) = omega arith
length-decode_loop-le (c ∷ d ∷ []) = omega arith
length-decode_loop-le (c ∷ h ∷ l ∷ s) = elim (Option-cases (percent c h l)) [
  | inl e ↦ rw (e, decode_loop) (omega (arith, length-decode_loop-le (h ∷ l ∷ s)))
  | inr (b, e) ↦ rw (e, decode_loop) (omega (arith, length-decode_loop-le s))
]
