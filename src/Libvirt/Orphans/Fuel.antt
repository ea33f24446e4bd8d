-- ===== src/Libvirt/Orphans/Fuel.antt =====
-- The loops over the output of `qemu-img` have fuel enough: more of it changes nothing.
use qemu_snapshot_web_manage.Prelude.{
  Bool-cases, inl, inr, ℕ, zero, suc, ◌<◌, ◌≤◌, ◌≡◌, refl, ap, Option, [], ◌∷◌, if◌then◌else◌,
  arith, length, Bytes,
}
use qemu_snapshot_web_manage.Libvirt.Orphans.{
  add_tag, is_digit, skip_spaces, skip_digits, skip_decimals, size_loop, tag_of, fgets, read_names,
}

length-fgets : (room : ℕ) (s : Bytes) → length (fgets room s).1 ≤ length s
unfolding fgets
length-fgets zero s = omega arith
length-fgets (suc room) [] = omega arith
length-fgets (suc room) (c ∷ s) = ground (arith, length-fgets room s)

fgets-shorter : (room c : ℕ) (s : Bytes) → length (fgets (suc room) (c ∷ s)).1 ≤ length s
unfolding fgets
fgets-shorter room c s = ground (arith, length-fgets room s)

-- Any fuel above the number of bytes gives the names of all lines.
pub read_names-fuel :
    (f g : ℕ) (s : Bytes) → length s < f → length s < g → read_names f s ≡ read_names g s
unfolding read_names
read_names-fuel zero g s h k = absurd (omega (arith, h))
read_names-fuel (suc f) zero s h k = absurd (omega (arith, k))
read_names-fuel (suc f) (suc g) [] h k = refl
read_names-fuel (suc f) (suc g) (c ∷ s) h k =
    let shorter = fgets-shorter 1022 c s in
    ap (add_tag (tag_of (skip_spaces (fgets 1023 (c ∷ s)).0))) (
      read_names-fuel f g (fgets 1023 (c ∷ s)).1 (omega (arith, shorter, h))
        (omega (arith, shorter, k)))

length-skip_digits : (s : Bytes) → length (skip_digits s) ≤ length s
length-skip_digits [] = omega arith
length-skip_digits (c ∷ s) = ground (arith, length-skip_digits s)

length-skip_decimals : (s : Bytes) → length (skip_decimals s) ≤ length s
length-skip_decimals [] = omega arith
length-skip_decimals (c ∷ s) = ground (arith, length-skip_digits s)

behind_shorter :
    (c : ℕ) (s : Bytes)
    → length (if is_digit c then skip_decimals (skip_digits (c ∷ s)) else s) ≤ length s
behind_shorter c s = elim (Bool-cases (is_digit c)) [
  | inl digit ↦ rw digit (omega (arith, length-skip_decimals (skip_digits s), length-skip_digits s))
  | inr other ↦ rw other (omega arith)
]

-- Any fuel above the number of bytes gives the last place of a size.
pub size_loop-fuel :
    (f g : ℕ) (s : Bytes) (p : Option Bytes)
    → length s < f
    → length s < g
    → size_loop f s p ≡ size_loop g s p
unfolding size_loop
size_loop-fuel zero g s p h k = absurd (omega (arith, h))
size_loop-fuel (suc f) zero s p h k = absurd (omega (arith, k))
size_loop-fuel (suc f) (suc g) [] p h k = refl
size_loop-fuel (suc f) (suc g) (c ∷ s) p h k =
    let shorter = behind_shorter c s in
    size_loop-fuel f g (if is_digit c then skip_decimals (skip_digits (c ∷ s)) else s) _
      (omega (arith, shorter, h)) (omega (arith, shorter, k))
