-- ===== src/Util/Escape/Html.antt =====
-- Escaped text cannot leave the place of the page where it is put, and loses nothing.
use qemu_snapshot_web_manage.Prelude.{
  ℕ, ◌*◌, ◌+◌, ◌≤◌, ◌≡◌, ◌≢◌, refl, sym, some, [], ◌∷◌, ◌++◌, arith, length, length-append, All,
  All-append, Bytes,
}
use qemu_snapshot_web_manage.Util.Escape.{escape_each, html_byte, html_escape}

-- No byte that opens or closes a tag or an attribute value.
abbrev pub IsInert : ℕ → Type 0
IsInert c = (c ≢ b'<') × (c ≢ b'>') × (c ≢ b'"') × (c ≢ b'\'')

html_byte-IsInert : (c : ℕ) → All IsInert (html_byte c)
unfolding html_byte
html_byte-IsInert c = ground arith

escape_each-IsInert : (s : Bytes) → All IsInert (escape_each html_byte s)
unfolding escape_each
escape_each-IsInert [] = tt
escape_each-IsInert (c ∷ s) =
    All-append IsInert (html_byte c) _ (html_byte-IsInert c) (escape_each-IsInert s)

-- An escaped text holds no angle bracket and no quote.
pub html_escape-IsInert : (s : Bytes) → All IsInert (html_escape (some s))
unfolding html_escape
html_escape-IsInert s = escape_each-IsInert s

-- The code of one byte is no prefix of the code of another.
html_byte-prefix : (c d : ℕ) (x y : Bytes) → html_byte c ++ x ≡ html_byte d ++ y → (c ≡ d) × (x ≡ y)
unfolding html_byte
html_byte-prefix c d x y e = ground arith

html_byte-ne-nil : (c : ℕ) (x : Bytes) → html_byte c ++ x ≢ []
unfolding html_byte
html_byte-ne-nil c x e = ground arith

escape_each-injective : (s t : Bytes) → escape_each html_byte s ≡ escape_each html_byte t → s ≡ t
unfolding escape_each
escape_each-injective [] [] e = refl
escape_each-injective [] (d ∷ t) e = absurd (html_byte-ne-nil d _ (sym e))
escape_each-injective (c ∷ s) [] e = absurd (html_byte-ne-nil c _ e)
escape_each-injective (c ∷ s) (d ∷ t) e =
    let (same, rest) = html_byte-prefix c d _ _ e in cc (escape_each-injective s t rest)

-- Two texts that look alike on the page are the same text.
pub html_escape-injective : (s t : Bytes) → html_escape (some s) ≡ html_escape (some t) → s ≡ t
unfolding html_escape
html_escape-injective s t = escape_each-injective s t

length-html_byte-le : (c : ℕ) → length (html_byte c) ≤ 6
unfolding html_byte
length-html_byte-le c = ground arith

-- The escaped text and its final NUL fit the buffer of `len * 6 + 1` bytes.
pub length-html_escape-le : (s : Bytes) → length (html_escape (some s)) + 1 ≤ length s * 6 + 1
unfolding html_escape escape_each
length-html_escape-le [] = omega arith
length-html_escape-le (c ∷ s) = omega (
  arith,
  length-append (html_byte c) (escape_each html_byte s),
  length-html_byte-le c,
  length-html_escape-le s,
)
