-- ===== src/Libvirt/Xml.antt =====
-- The XML texts of src/libvirt_backend.c: escaping, building and taking apart by `strstr`.
pub mod Escape
pub mod Extract
pub mod Edit
use qemu_snapshot_web_manage.Prelude.{
  ℕ, ◌+◌, ◌-◌, Bool, true, false, ◌||◌, Option, none, some, List, [], ◌∷◌, ◌++◌, ◌==◌,
  if◌then◌else◌, Bytes, codes, length, take, drop, strcmp_eq, strstr, strchr, snprintf_s,
}
use qemu_snapshot_web_manage.Snapshot.{SnapType, internal, external, current_state}

unfoldable pub xml_byte : ℕ → Bytes
xml_byte c =
    if c == b'&'
    then codes "&amp;"
    else if c == b'<'
    then codes "&lt;"
    else if c == b'>'
    then codes "&gt;"
    else if c == b'"'
    then codes "&quot;"
    else if c == b'\''
    then codes "&apos;"
    else c ∷ []

-- The first pass, which counts.
unfoldable pub escaped_length : Bytes → ℕ
escaped_length [] = 0
escaped_length (c ∷ s) =
    (if c == b'&'
      then 5
      else if c == b'<'
      then 4
      else if c == b'>'
      then 4
      else if c == b'"'
      then 6
      else if c == b'\''
      then 6
      else 1)
    + escaped_length s

-- The second pass, which writes.
unfoldable pub escape_text : Bytes → Bytes
escape_text [] = []
escape_text (c ∷ s) = xml_byte c ++ escape_text s

unfoldable pub xml_escape_text : Option Bytes → Bytes
xml_escape_text none = []
xml_escape_text (some src) = escape_text src

-- The bytes from `start` up to the pointer `end` into the same text.
abbrev pub up_to : Bytes → Option Bytes → Option Bytes
up_to start none = none
up_to start (some end) = some (take (length start - length end) start)

-- `open_tag` is 64 bytes.
abbrev pub open_tag : Bytes → Bytes
open_tag tag = snprintf_s 64 (b'<' ∷ (tag ++ b'>' ∷ []))

abbrev pub close_tag : Bytes → Bytes
close_tag tag = snprintf_s 64 (b'<' ∷ b'/' ∷ (tag ++ b'>' ∷ []))

unfoldable pub content_from : Option Bytes → Bytes → Bytes → Option Bytes
content_from none opening closing = none
content_from (some at) opening closing =
    let start = drop (length opening) at in up_to start (strstr start closing)

unfoldable pub extract_xml_content : Bytes → Bytes → Option Bytes
extract_xml_content xml tag =
    content_from (strstr xml (open_tag tag)) (open_tag tag) (close_tag tag)

-- What stands behind the `>` that closes the opening tag.
unfoldable pub content_after : Option Bytes → Bytes → Option Bytes
content_after none close = none
content_after (some []) close = none
content_after (some (gt ∷ start)) close = up_to start (strstr start close)

unfoldable pub content_with_attributes : Option Bytes → Bytes → Option Bytes
content_with_attributes none close = none
content_with_attributes (some at) close = content_after (strchr at b'>') close

abbrev pub or_else : Option Bytes → Option Bytes → Option Bytes
or_else none r = r
or_else (some a) r = some a

unfoldable pub extract_xml_content_ext : Bytes → Bytes → Option Bytes
extract_xml_content_ext xml tag = or_else (extract_xml_content xml tag) (
    content_with_attributes (strstr xml (snprintf_s 64 (b'<' ∷ (tag ++ b' ' ∷ []))))
      (close_tag tag))

abbrev pub name_in : Option Bytes → Option Bytes
name_in none = none
name_in (some parent_xml) = extract_xml_content parent_xml (codes "name")

unfoldable pub extract_snapshot_parent_name : Option Bytes → Option Bytes
extract_snapshot_parent_name none = none
extract_snapshot_parent_name (some xml) = name_in (extract_xml_content_ext xml (codes "parent"))

abbrev pub is_found : Option Bytes → Bool
is_found none = false
is_found (some s) = true

-- The test by which listing and deleting tell an external snapshot.
unfoldable pub is_external : Bytes → Bool
is_external xml =
    is_found (strstr xml (codes "snapshot='external'"))
    || is_found (strstr xml (codes "snapshot=\"external\""))
    || is_found (strstr xml (codes "disk-only"))

-- The XML that `lv_create_snapshot` sends, from texts that are escaped already.
unfoldable pub parent_xml : Option Bytes → Bytes
parent_xml none = []
parent_xml (some parent) = codes "<parent><name>" ++ (parent ++ codes "</name></parent>")

unfoldable pub xml_tail : SnapType → Bytes
xml_tail external = codes "<disks><disk name='vda' snapshot='external'/></disks></domainsnapshot>"
xml_tail _ = codes "</domainsnapshot>"

unfoldable pub snapshot_xml : Bytes → Bytes → Option Bytes → SnapType → Bytes
snapshot_xml name description parent type =
    codes "<domainsnapshot><name>"
    ++ (name
        ++ (codes "</name><description>"
            ++ (description ++ (codes "</description>" ++ (parent_xml parent ++ xml_tail type)))))

abbrev pub escaped_parent : Bytes → Option Bytes → Option Bytes
escaped_parent snap_name none = none
escaped_parent snap_name (some current) =
    if strcmp_eq current snap_name then none else some (escape_text current)

-- `lv_create_snapshot` up to the call of libvirt: the current snapshot becomes the parent, unless
-- it has the name of the new one.
unfoldable pub create_snapshot_xml : Option Bytes → Bytes → Option Bytes → SnapType → Bytes
create_snapshot_xml current snap_name description type =
    snapshot_xml (escape_text snap_name) (xml_escape_text description)
      (escaped_parent snap_name current) type

-- With no description yet: it goes behind the name, through a buffer of 2048 bytes.
unfoldable pub insert_description : Bytes → Bytes → Option Bytes → Option Bytes
insert_description xml new none = none
insert_description xml new (some at) =
    let rest = drop (length (codes "</name>")) at in
    some (
      take (length xml - length rest) xml
      ++ (snprintf_s 2048 (codes "<description>" ++ (new ++ codes "</description>")) ++ rest))

-- The new XML of `lv_edit_snapshot_description`, `none` where it cannot be built.
unfoldable pub replace_description : Bytes → Bytes → Option Bytes → Option Bytes → Option Bytes
replace_description xml new (some start) (some end) =
    let prefix_len = (length xml - length start) + length (codes "<description>") in
    some (take prefix_len xml ++ (new ++ end))
replace_description xml new _ _ = insert_description xml new (strstr xml (codes "</name>"))

unfoldable pub edited_xml : Bytes → Bytes → Option Bytes
edited_xml xml new =
    replace_description xml new (strstr xml (codes "<description>"))
      (strstr xml (codes "</description>"))
