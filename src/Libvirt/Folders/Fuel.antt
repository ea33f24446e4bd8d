-- ===== src/Libvirt/Folders/Fuel.antt =====
-- The loop over the `<filesystem` blocks of src/libvirt_backend.c: its fuel, and shared memory.
use qemu_snapshot_web_manage.Prelude.{
  ℕ, zero, suc, ◌<◌, ◌≤◌, ◌≡◌, refl, inl, inr, true, Bool-cases, is_prefix, none, some,
  Option-cases, [], ◌∷◌, ◌++◌, Bytes, codes, length, drop, strstr, length-drop, arith,
}
use qemu_snapshot_web_manage.Libvirt.Disks.Fuel.{strstr-IsWithin, strstr-found}
use mathlib.Core.Option.{some-injective}
use qemu_snapshot_web_manage.Libvirt.Xml.{is_found}
use qemu_snapshot_web_manage.Libvirt.Folders.{
  blocks, shared_xml, is_shared, mem_backing, before_end,
}

within : (s needle q : Bytes) → strstr s needle ≡ some q → length q ≤ length s
within s needle q e = let w = strstr-IsWithin s needle in rw e at w

-- The next round starts behind the place where this one started.
next-shorter :
    (from needle start end : Bytes)
    → strstr from needle ≡ some start
    → strstr start (codes "</filesystem>") ≡ some end
    → length (drop 1 end) < length from
next-shorter from needle start [] found ended =
    absurd (strstr-found start b'<' (codes "/filesystem>") ended)
next-shorter from needle start (c ∷ end) found ended = omega (
  arith,
  length-drop 1 (c ∷ end),
  within from needle start found,
  within start (codes "</filesystem>") (c ∷ end) ended,
)

-- More fuel than there are bytes gives the same blocks.
pub blocks-fuel :
    (n m end_len : ℕ) (from : Bytes)
    → length from < n
    → length from < m
    → blocks n end_len from ≡ blocks m end_len from
unfolding blocks
blocks-fuel zero m end_len from h k = absurd (omega arith)
blocks-fuel (suc n) zero end_len from h k = absurd (omega arith)
blocks-fuel (suc n) (suc m) end_len from h k =
    elim (Option-cases (strstr from (codes "<filesystem"))) [
      | inl missed ↦ rw (missed, blocks) refl
      | inr (start, found) ↦ elim (Option-cases (strstr start (codes "</filesystem>"))) [
        | inl missed ↦ rw (found, missed, blocks) refl
        | inr (fs_end, ended) ↦
            let shorter = next-shorter from (codes "<filesystem") start fs_end found ended in
            let rest =
              blocks-fuel n m end_len (drop 1 fs_end) (omega (arith, h, shorter))
                (omega (arith, k, shorter)) in
            rw (found, ended, rest, blocks) refl
      ]
    ]

found-append :
    (a b needle : Bytes)
    → is_found (strstr b needle) ≡ true
    → is_found (strstr (a ++ b) needle) ≡ true
unfolding strstr
found-append [] b needle h = h
found-append (c ∷ a) b needle h = elim (Bool-cases (is_prefix (c ∷ (a ++ b)) needle)) [
  | inl hit ↦ rw (hit, strstr) refl
  | inr miss ↦ rw (miss, strstr) (found-append a b needle h)
]

access-found : (b : Bytes) → is_shared (codes "  " ++ (mem_backing ++ b)) ≡ true
unfolding strstr is_prefix
access-found b = refl

-- The XML that `lv_enable_shared_memory` defines passes the test that `lv_add_shared_folder` makes.
pub shared_xml-is_shared :
    (domxml xml : Bytes) → shared_xml domxml ≡ some xml → is_shared xml ≡ true
unfolding shared_xml
shared_xml-is_shared domxml xml e = elim (Option-cases (strstr domxml (codes "</domain>"))) [
  | inl missed ↦ let no : none ≡ some xml = rw (missed, shared_xml) at e in cc
  | inr (insert_point, found) ↦
      let start = before_end domxml insert_point in
      let text = codes "  " ++ (mem_backing ++ insert_point) in
      let made : some (start ++ text) ≡ some xml = rw (found, shared_xml) at e in
      let same = some-injective (start ++ text) xml made in
      let shown =
        found-append start text (codes "<access mode='shared'") (access-found insert_point) in
      rw same at shown
]
