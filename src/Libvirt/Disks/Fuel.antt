-- ===== src/Libvirt/Disks/Fuel.antt =====
-- The loop over the disks of an XML text has fuel enough: more of it changes nothing.
use qemu_snapshot_web_manage.Prelude.{
  ℕ, zero, suc, ◌<◌, ◌≤◌, ◌≡◌, ◌≢◌, refl, sym, ap, ◌∙◌, Bool-cases, inl, inr, Option, none, some,
  [], ◌∷◌, leb, arith, length, length-drop, drop, Bytes, codes, is_prefix, strstr,
}
use qemu_snapshot_web_manage.Libvirt.Disks.{
  earlier, next_disk, add_path, element_source, behind_element, disk_loop,
}

-- A place in a text has no more behind it than the text has bytes.
abbrev pub IsWithin : ℕ → Option Bytes → Type 0
IsWithin n none = Unit
IsWithin n (some r) = length r ≤ n

IsWithin-suc : (n : ℕ) (p : Option Bytes) → IsWithin n p → IsWithin (suc n) p
IsWithin-suc n none h = tt
IsWithin-suc n (some r) h = omega (arith, h)

pub strstr-IsWithin : (s needle : Bytes) → IsWithin (length s) (strstr s needle)
unfolding strstr
strstr-IsWithin [] needle = elim (Bool-cases (is_prefix [] needle)) [
  | inl hit ↦ rw hit (omega arith)
  | inr miss ↦ rw miss tt
]
strstr-IsWithin (c ∷ s) needle = elim (Bool-cases (is_prefix (c ∷ s) needle)) [
  | inl hit ↦ rw hit (omega arith)
  | inr miss ↦ rw miss (IsWithin-suc (length s) (strstr s needle) (strstr-IsWithin s needle))
]

-- A needle that is not empty is not found at the end of the text.
pub strstr-found : (s : Bytes) (d : ℕ) (needle : Bytes) → strstr s (d ∷ needle) ≢ some []
unfolding strstr is_prefix
strstr-found [] d needle e = cc
strstr-found (c ∷ s) d needle e = elim (Bool-cases (is_prefix (c ∷ s) (d ∷ needle))) [
  | inl hit ↦ let no : some (c ∷ s) ≡ some [] = rw hit at e in cc
  | inr miss ↦ strstr-found s d needle (rw miss at e)
]

earlier-IsWithin :
    (n : ℕ) (p1 p2 : Option Bytes) → IsWithin n p1 → IsWithin n p2 → IsWithin n (earlier p1 p2)
unfolding earlier
earlier-IsWithin n none p2 h k = k
earlier-IsWithin n (some p1) none h k = h
earlier-IsWithin n (some p1) (some p2) h k = elim (Bool-cases (leb (length p1) (length p2))) [
  | inl shorter ↦ rw shorter k
  | inr longer ↦ rw longer h
]

next_disk-IsWithin : (pos : Bytes) → IsWithin (length pos) (next_disk pos)
unfolding next_disk
next_disk-IsWithin pos =
    earlier-IsWithin (length pos) (strstr pos (codes "<disk type='file'"))
      (strstr pos (codes "<disk type=\"file\"")) (strstr-IsWithin pos _) (strstr-IsWithin pos _)

disk_loop-none : (f : ℕ) → disk_loop f none ≡ []
unfolding disk_loop
disk_loop-none zero = refl
disk_loop-none (suc f) = refl

-- Fuel for a search from this place.
abbrev pub Fits : Option Bytes → ℕ → Type 0
Fits none f = Unit
Fits (some r) f = length r < f

IsWithin-Fits : (n f : ℕ) (p : Option Bytes) → IsWithin n p → n < f → Fits p f
IsWithin-Fits n f none w h = tt
IsWithin-Fits n f (some r) w h = omega (arith, w, h)

behind_element-Fits :
    (f : ℕ) (pos : Bytes) (disk_end : Option Bytes)
    → IsWithin (length pos) disk_end
    → disk_end ≢ some []
    → length pos ≤ f
    → Fits (behind_element disk_end) f
behind_element-Fits f pos none w found h = tt
behind_element-Fits f pos (some []) w found h = absurd (found refl)
behind_element-Fits f pos (some (c ∷ r)) w found h =
    let size = length-drop 7 (c ∷ r) in
    IsWithin-Fits (length (drop 7 (c ∷ r))) f (next_disk (drop 7 (c ∷ r)))
      (next_disk-IsWithin (drop 7 (c ∷ r))) (omega (arith, size, w, h))

element_end-Fits :
    (f : ℕ) (pos : Bytes) → length pos ≤ f → Fits (behind_element (strstr pos (codes "</disk>"))) f
element_end-Fits f pos h =
    behind_element-Fits f pos (strstr pos (codes "</disk>")) (strstr-IsWithin pos (codes "</disk>"))
      (strstr-found pos b'<' (codes "/disk>")) h

-- Any fuel above the number of bytes gives all disks.
pub disk_loop-fuel :
    (f g : ℕ) (p : Option Bytes) → Fits p f → Fits p g → disk_loop f p ≡ disk_loop g p
unfolding disk_loop
disk_loop-fuel f g none h k = disk_loop-none f ∙ sym (disk_loop-none g)
disk_loop-fuel zero g (some pos) h k = absurd (omega (arith, h))
disk_loop-fuel (suc f) zero (some pos) h k = absurd (omega (arith, k))
disk_loop-fuel (suc f) (suc g) (some pos) h k =
    ap (add_path (element_source pos (strstr pos (codes "</disk>")))) (
      disk_loop-fuel f g (behind_element (strstr pos (codes "</disk>")))
        (element_end-Fits f pos (omega (arith, h))) (element_end-Fits g pos (omega (arith, k))))
