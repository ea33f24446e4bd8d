-- ===== src/Libvirt/Xml/Escape.antt =====
-- `xml_escape_text`: its two passes agree, and its result cannot end an element.
use qemu_snapshot_web_manage.Prelude.{
  ℕ, ◌≡◌, ◌≢◌, refl, [], ◌∷◌, ◌++◌, arith, length, All-append, Bytes, Without,
}
use qemu_snapshot_web_manage.Libvirt.Xml.{xml_byte, escaped_length, escape_text}

-- The second pass writes exactly the bytes that the first pass has counted.
pub length-escape_text : (s : Bytes) → length (escape_text s) ≡ escaped_length s
unfolding escape_text escaped_length xml_byte
length-escape_text [] = refl
length-escape_text (c ∷ s) = ground (arith, length-escape_text s)

xml_byte-Without : (c : ℕ) → Without b'<' (xml_byte c)
unfolding xml_byte
xml_byte-Without c = ground arith

pub escape_text-Without : (s : Bytes) → Without b'<' (escape_text s)
unfolding escape_text
escape_text-Without [] = tt
escape_text-Without (c ∷ s) =
    All-append (λ x. x ≢ b'<') (xml_byte c) (escape_text s) (xml_byte-Without c)
      (escape_text-Without s)

xml_byte-prefix : (c d : ℕ) (x y : Bytes) → xml_byte c ++ x ≡ xml_byte d ++ y → (c ≡ d) × (x ≡ y)
unfolding xml_byte
xml_byte-prefix c d x y e = ground arith
