-- ===== src/Libvirt/Xml/Edit.antt =====
-- `lv_edit_snapshot_description`: the XML it sends back to libvirt, and what tells an external snapshot.
use qemu_snapshot_web_manage.Prelude.{
  ◌||◌, ◌+◌, ◌-◌, ◌≡◌, ◌≢◌, refl, sym, ap, ◌∙◌, Option, none, some, [], ◌∷◌, ◌++◌, arith, length,
  length-append, take, take-append, append_assoc, Bool, true, false, Bytes, codes, Without, strstr,
  strstr-skip, strstr-ne-none, is_prefix,
}
use qemu_snapshot_web_manage.Snapshot.{SnapType}
use qemu_snapshot_web_manage.Libvirt.Xml.{
  escape_text, xml_escape_text, is_external, parent_xml, xml_tail, snapshot_xml,
  create_snapshot_xml, replace_description, edited_xml, xml_byte, escaped_parent, is_found,
}
use qemu_snapshot_web_manage.Libvirt.Xml.Extract.{description_start}

description_close :
    (name desc : Bytes) (type : SnapType)
    → Without b'<' name
    → Without b'<' desc
    → (parent : Option Bytes)
    → strstr (snapshot_xml name desc parent type) (codes "</description>")
      ≡ some (codes "</description>" ++ (parent_xml parent ++ xml_tail type))
unfolding strstr is_prefix snapshot_xml
description_close name desc type n d parent =
    let tail = codes "</description>" ++ (parent_xml parent ++ xml_tail type) in
    let needle = codes "/description>" in
    strstr-skip b'<' needle name (codes "</name><description>" ++ (desc ++ tail)) n
    ∙ strstr-skip b'<' needle desc tail d

prefix_of :
    (a b c : Bytes)
    → take ((length (a ++ (b ++ c)) - length (b ++ c)) + length b) (a ++ (b ++ c)) ≡ a ++ b
prefix_of a b c =
    let la = length-append a (b ++ c) in
    let lb = length-append b c in
    let lab = length-append a b in
    let size : length (a ++ (b ++ c)) - length (b ++ c) + length b ≡ length (a ++ b) =
      omega arith in
    ap (λ n. take n (a ++ (b ++ c))) size
    ∙ ap (take (length (a ++ b))) (sym (append_assoc a b c))
    ∙ take-append (length (a ++ b)) (a ++ b) c refl

-- The same where the text in front is in two parts.
prefix_of_parts :
    (p a b c : Bytes)
    → take ((length (p ++ (a ++ (b ++ c))) - length (b ++ c)) + length b) (p ++ (a ++ (b ++ c)))
      ≡ p ++ (a ++ b)
prefix_of_parts p a b c =
    ap (λ xml. take ((length xml - length (b ++ c)) + length b) xml)
      (sym (append_assoc p a (b ++ c)))
    ∙ prefix_of (p ++ a) b c
    ∙ append_assoc p a b

replaced :
    (p name t b x y : Bytes)
    → take
          ((length (p ++ (name ++ (t ++ (b ++ x)))) - length (b ++ x)) + length b)
          (p ++ (name ++ (t ++ (b ++ x))))
        ++ y
      ≡ p ++ (name ++ (t ++ (b ++ y)))
replaced p name t b x y =
    ap (λ xml. take ((length xml - length (b ++ x)) + length b) xml ++ y)
      (ap (λ s. p ++ s) (sym (append_assoc name t (b ++ x))))
    ∙ ap (λ s. s ++ y) (prefix_of_parts p (name ++ t) b x)
    ∙ simp append_assoc

-- An edit of the XML that has been built for a snapshot puts the new text in the place of the
-- description, and leaves the name, the parent and the disks alone. The new text is any; the name and
-- the old description are without `<`, which escaping sees to.
pub edited_xml-snapshot_xml :
    (name desc new : Bytes) (parent : Option Bytes) (type : SnapType)
    → Without b'<' name
    → Without b'<' desc
    → edited_xml (snapshot_xml name desc parent type) new ≡ some (snapshot_xml name new parent type)
unfolding edited_xml replace_description snapshot_xml
edited_xml-snapshot_xml name desc new parent type n d =
    let rest = codes "</description>" ++ (parent_xml parent ++ xml_tail type) in
    let xml = snapshot_xml name desc parent type in
    ap (λ a. replace_description xml new a (strstr xml (codes "</description>")))
      (description_start name desc type n d parent)
    ∙ ap (replace_description xml new (some (codes "<description>" ++ (desc ++ rest))))
        (description_close name desc type n d parent)
    ∙ ap some (
        replaced (codes "<domainsnapshot><name>") name (codes "</name>") (codes "<description>")
          (desc ++ rest) (new ++ rest))

is_found-true : (r : Option Bytes) → r ≢ none → is_found r ≡ true
is_found-true none h = absurd (h refl)
is_found-true (some s) h = refl

escape_text-append : (a b : Bytes) → escape_text (a ++ b) ≡ escape_text a ++ escape_text b
unfolding escape_text
escape_text-append [] b = refl
escape_text-append (x ∷ a) b =
    ap (λ s. xml_byte x ++ s) (escape_text-append a b)
    ∙ sym (append_assoc (xml_byte x) (escape_text a) (escape_text b))

escaped_word :
    (a b : Bytes)
    → escape_text (a ++ (codes "disk-only" ++ b))
      ≡ escape_text a ++ (codes "disk-only" ++ escape_text b)
unfolding escape_text xml_byte
escaped_word a b = escape_text-append a (codes "disk-only" ++ b)

last_of : (p q r : Bool) → r ≡ true → p || q || r ≡ true
last_of true q r e = refl
last_of false true r e = refl
last_of false false r e = e

-- The test for an external snapshot is passed by the XML of every snapshot whose description holds the
-- word `disk-only`, also where the snapshot is internal.
pub is_external-disk_only :
    (current : Option Bytes) (snap_name a b : Bytes) (type : SnapType)
    → is_external
        (create_snapshot_xml current snap_name (some (a ++ (codes "disk-only" ++ b))) type)
      ≡ true
unfolding is_external create_snapshot_xml snapshot_xml xml_escape_text
is_external-disk_only current snap_name a b type =
    let xml = create_snapshot_xml current snap_name (some (a ++ (codes "disk-only" ++ b))) type in
    let rest =
      codes "</description>" ++ (parent_xml (escaped_parent snap_name current) ++ xml_tail type) in
    let front =
      codes "<domainsnapshot><name>" ++ (escape_text snap_name ++ codes "</name><description>") in
    let shape : xml ≡ (front ++ escape_text a) ++ (codes "disk-only" ++ (escape_text b ++ rest)) =
      ap
        (λ s.
          codes "<domainsnapshot><name>"
          ++ (escape_text snap_name ++ (codes "</name><description>" ++ (s ++ rest))))
        (escaped_word a b)
      ∙ simp append_assoc in
    let found : is_found (strstr xml (codes "disk-only")) ≡ true =
      is_found-true (strstr xml (codes "disk-only")) (λ e.
        strstr-ne-none (front ++ escape_text a) (codes "disk-only") (escape_text b ++ rest)
          (ap (λ s. strstr s (codes "disk-only")) (sym shape) ∙ e)) in
    last_of (is_found (strstr xml (codes "snapshot='external'")))
      (is_found (strstr xml (codes "snapshot=\"external\"")))
      (is_found (strstr xml (codes "disk-only"))) found
