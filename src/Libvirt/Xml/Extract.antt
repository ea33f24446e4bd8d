-- ===== src/Libvirt/Xml/Extract.antt =====
-- What the backend reads back out of the XML that it has built.
use qemu_snapshot_web_manage.Prelude.{
  ℕ, Bool, true, false, if◌then◌else◌, strcmp_eq, ◌-◌, ◌≡◌, refl, sym, ap, ◌∙◌, Option, none, some,
  [], ◌∷◌, ◌++◌, arith, length, length-append, take, take-append, append_assoc, Bytes, codes,
  Without, strstr, strstr-skip, is_prefix,
}
use qemu_snapshot_web_manage.Snapshot.{SnapType, internal, external, current_state}
use qemu_snapshot_web_manage.Libvirt.Xml.{
  escape_text, xml_escape_text, up_to, content_from, extract_xml_content, extract_xml_content_ext,
  content_with_attributes, extract_snapshot_parent_name, parent_xml, xml_tail, snapshot_xml,
  create_snapshot_xml, name_in, or_else, escaped_parent,
}
use qemu_snapshot_web_manage.Libvirt.Xml.Escape.{escape_text-Without}

up_to-append : (s r : Bytes) → up_to (s ++ r) (some r) ≡ some s
up_to-append s r =
    let size = length-append s r in
    let cut : length (s ++ r) - length r ≡ length s = omega arith in
    ap some (ap (λ n. take n (s ++ r)) cut ∙ take-append (length s) s r refl)

no_parent_in_tail :
    (c : ℕ) (type : SnapType)
    → strstr (codes "</description>" ++ xml_tail type) (codes "<parent" ++ c ∷ []) ≡ none
unfolding strstr is_prefix xml_tail
no_parent_in_tail c internal = refl
no_parent_in_tail c external = refl
no_parent_in_tail c current_state = refl

module _ (name desc : Bytes) (type : SnapType) (n : Without b'<' name) (d : Without b'<' desc) where
  behind_name :
      (needle rest : Bytes) → strstr (name ++ rest) (b'<' ∷ needle) ≡ strstr rest (b'<' ∷ needle)
  behind_name needle rest = strstr-skip b'<' needle name rest n

  behind_desc :
      (needle rest : Bytes) → strstr (desc ++ rest) (b'<' ∷ needle) ≡ strstr rest (b'<' ∷ needle)
  behind_desc needle rest = strstr-skip b'<' needle desc rest d

  pub description_start :
      (parent : Option Bytes)
      → strstr (snapshot_xml name desc parent type) (codes "<description>")
        ≡ some (
            codes "<description>"
            ++ (desc ++ (codes "</description>" ++ (parent_xml parent ++ xml_tail type))))
  unfolding snapshot_xml strstr is_prefix
  description_start parent = behind_name (codes "description>") (
      codes "</name><description>"
      ++ (desc ++ (codes "</description>" ++ (parent_xml parent ++ xml_tail type))))

  description_end :
      (parent : Option Bytes)
      → strstr
          (desc ++ (codes "</description>" ++ (parent_xml parent ++ xml_tail type)))
          (codes "</description>")
        ≡ some (codes "</description>" ++ (parent_xml parent ++ xml_tail type))
  unfolding strstr is_prefix
  description_end parent =
      behind_desc (codes "/description>")
        (codes "</description>" ++ (parent_xml parent ++ xml_tail type))

  -- The description in the XML that has been built.
  pub description-snapshot_xml :
      (parent : Option Bytes)
      → extract_xml_content (snapshot_xml name desc parent type) (codes "description") ≡ some desc
  unfolding extract_xml_content content_from
  description-snapshot_xml parent =
      let rest = codes "</description>" ++ (parent_xml parent ++ xml_tail type) in
      ap (λ a. content_from a (codes "<description>") (codes "</description>"))
        (description_start parent)
      ∙ ap (up_to (desc ++ rest)) (description_end parent)
      ∙ up_to-append desc rest

  module _ (parent : Bytes) (p : Without b'<' parent) where
    element : Bytes
    element = codes "<name>" ++ (parent ++ codes "</name>")

    rest : Bytes
    rest = codes "</parent>" ++ xml_tail type

    regroup :
        codes "<name>" ++ ((parent ++ codes "</name></parent>") ++ xml_tail type) ≡ element ++ rest
    unfolding element rest
    regroup =
        ap (λ s. codes "<name>" ++ s)
          (append_assoc parent (codes "</name></parent>") (xml_tail type)
            ∙ sym (append_assoc parent (codes "</name>") (codes "</parent>" ++ xml_tail type)))

    parent_start :
        strstr (snapshot_xml name desc (some parent) type) (codes "<parent>")
        ≡ some (codes "<parent>" ++ (element ++ rest))
    unfolding snapshot_xml strstr is_prefix parent_xml
    parent_start =
        let tail = codes "</description>" ++ (parent_xml (some parent) ++ xml_tail type) in
        behind_name (codes "parent>") (codes "</name><description>" ++ (desc ++ tail))
        ∙ behind_desc (codes "parent>") tail
        ∙ ap (λ s. some (codes "<parent>" ++ s)) regroup

    parent_end : strstr (element ++ rest) (codes "</parent>") ≡ some rest
    unfolding strstr is_prefix element rest
    parent_end =
        ap (λ s. strstr s (codes "</parent>")) (sym regroup)
        ∙ ap (λ s. strstr s (codes "</parent>"))
            (append_assoc parent (codes "</name></parent>") (xml_tail type))
        ∙ strstr-skip b'<' (codes "/parent>") parent (codes "</name></parent>" ++ xml_tail type) p

    parent_content :
        extract_xml_content (snapshot_xml name desc (some parent) type) (codes "parent")
        ≡ some element
    unfolding extract_xml_content content_from
    parent_content =
        ap (λ a. content_from a (codes "<parent>") (codes "</parent>")) parent_start
        ∙ ap (up_to (element ++ rest)) parent_end
        ∙ up_to-append element rest

    name_content : extract_xml_content element (codes "name") ≡ some parent
    unfolding extract_xml_content content_from element strstr is_prefix
    name_content =
        ap (up_to (parent ++ codes "</name>"))
          (strstr-skip b'<' (codes "/name>") parent (codes "</name>") p)
        ∙ up_to-append parent (codes "</name>")

    pub parent_name-snapshot_xml :
        extract_snapshot_parent_name (some (snapshot_xml name desc (some parent) type))
        ≡ some parent
    unfolding extract_snapshot_parent_name extract_xml_content_ext
    parent_name-snapshot_xml =
        let xml = snapshot_xml name desc (some parent) type in
        let other = content_with_attributes (strstr xml (codes "<parent ")) (codes "</parent>") in
        ap (λ r. name_in (or_else r other)) parent_content ∙ name_content

  no_parent : (c : ℕ) → strstr (snapshot_xml name desc none type) (codes "<parent" ++ c ∷ []) ≡ none
  unfolding snapshot_xml strstr is_prefix parent_xml
  no_parent c =
      let tail = codes "</description>" ++ xml_tail type in
      let needle = codes "parent" ++ c ∷ [] in
      behind_name needle (codes "</name><description>" ++ (desc ++ tail))
      ∙ behind_desc needle tail
      ∙ no_parent_in_tail c type

  pub no_parent_name : extract_snapshot_parent_name (some (snapshot_xml name desc none type)) ≡ none
  unfolding extract_snapshot_parent_name extract_xml_content_ext extract_xml_content content_from
      content_with_attributes
  no_parent_name =
      ap
        (λ a. name_in (
          or_else (content_from a (codes "<parent>") (codes "</parent>")) (
            content_with_attributes (strstr (snapshot_xml name desc none type) (codes "<parent "))
              (codes "</parent>"))))
        (no_parent b'>')
      ∙ ap (λ a. name_in (content_with_attributes a (codes "</parent>"))) (no_parent b' ')

abbrev IsCleanParent : Option Bytes → Type 0
IsCleanParent none = Unit
IsCleanParent (some p) = Without b'<' p

if-IsCleanParent :
    (b : Bool) (current : Bytes) → IsCleanParent (if b then none else some (escape_text current))
if-IsCleanParent true current = tt
if-IsCleanParent false current = escape_text-Without current

escaped_parent-IsCleanParent :
    (current : Option Bytes) (snap_name : Bytes) → IsCleanParent (escaped_parent snap_name current)
escaped_parent-IsCleanParent none snap_name = tt
escaped_parent-IsCleanParent (some current) snap_name =
    if-IsCleanParent (strcmp_eq current snap_name) current

parent_read :
    (name desc : Bytes) (type : SnapType)
    → Without b'<' name
    → Without b'<' desc
    → (parent : Option Bytes) → IsCleanParent parent
    → extract_snapshot_parent_name (some (snapshot_xml name desc parent type)) ≡ parent
parent_read name desc type n d none p = no_parent_name name desc type n d
parent_read name desc type n d (some parent) p =
    parent_name-snapshot_xml name desc type n d parent p

xml_escape_text-Without : (s : Option Bytes) → Without b'<' (xml_escape_text s)
unfolding xml_escape_text
xml_escape_text-Without none = tt
xml_escape_text-Without (some s) = escape_text-Without s

-- Whatever `lv_create_snapshot` is given, the texts it sends are read back: the description as it was
-- escaped, and the name of the parent, which is the current snapshot's name as it was escaped, unless
-- there is no current snapshot or it has the new one's name.
pub create_snapshot_xml-reads_back :
    (current : Option Bytes) (snap_name : Bytes) (description : Option Bytes) (type : SnapType)
    → (extract_xml_content
          (create_snapshot_xml current snap_name description type)
          (codes "description")
        ≡ some (xml_escape_text description))
      × (extract_snapshot_parent_name
            (some (create_snapshot_xml current snap_name description type))
          ≡ escaped_parent snap_name current)
unfolding create_snapshot_xml
create_snapshot_xml-reads_back current snap_name description type =
    let n = escape_text-Without snap_name in
    let d = xml_escape_text-Without description in
    let name = escape_text snap_name in
    let desc = xml_escape_text description in
    let parent = escaped_parent snap_name current in
    (
      description-snapshot_xml name desc type n d parent,
      parent_read name desc type n d parent (escaped_parent-IsCleanParent current snap_name),
    )
