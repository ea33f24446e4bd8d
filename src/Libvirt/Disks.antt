-- ===== src/Libvirt/Disks.antt =====
-- `extract_xml_attr` and `get_domain_disk_paths` of src/libvirt_backend.c: the files of a machine that
-- can hold snapshots.
pub mod Fuel
use qemu_snapshot_web_manage.Prelude.{
  ℕ, zero, suc, ◌-◌, Bool, false, ◌||◌, Option, none, some, List, [], ◌∷◌, ◌++◌, leb, if◌then◌else◌,
  Bytes, codes, length, take, drop, strcmp_eq, strstr, strchr, snprintf_s,
}
use qemu_snapshot_web_manage.Libvirt.Xml.{up_to, is_found, extract_xml_content_ext}

-- The value behind the pattern that was found, up to the quote that the pattern ends with.
abbrev value_at : Bytes → ℕ → Option Bytes → Option Bytes
value_at pattern quote none = none
value_at pattern quote (some attr_start) =
    let start = drop (length pattern) attr_start in up_to start (strchr start quote)

-- Single quotes first, then double quotes.
abbrev attr_from : Bytes → Option Bytes → Option Bytes
attr_from attr none = none
attr_from attr (some tag_start) =
    let single = snprintf_s 128 (attr ++ codes "='") in
    let double = snprintf_s 128 (attr ++ codes "=\"") in
    if is_found (strstr tag_start single)
    then value_at single b'\'' (strstr tag_start single)
    else value_at double b'"' (strstr tag_start double)

unfoldable pub extract_xml_attr : Bytes → Bytes → Bytes → Option Bytes
extract_xml_attr xml tag attr =
    attr_from attr (strstr xml (snprintf_s 128 (b'<' ∷ (tag ++ b' ' ∷ []))))

-- The earlier of two places in one text: more of the text stands behind it.
unfoldable pub earlier : Option Bytes → Option Bytes → Option Bytes
earlier none p2 = p2
earlier (some p1) none = some p1
earlier (some p1) (some p2) = if leb (length p1) (length p2) then some p2 else some p1

unfoldable pub next_disk : Bytes → Option Bytes
next_disk pos =
    earlier (strstr pos (codes "<disk type='file'")) (strstr pos (codes "<disk type=\"file\""))

abbrev pub add_path : Option Bytes → List Bytes → List Bytes
add_path none paths = paths
add_path (some path) paths = path ∷ paths

-- The file of one `<disk>` element, if it is a qcow2 file.
unfoldable pub disk_source : Bytes → Option Bytes
disk_source disk_xml =
    if is_found (strstr disk_xml (codes "type='qcow2'"))
      || is_found (strstr disk_xml (codes "type=\"qcow2\""))
    then extract_xml_attr disk_xml (codes "source") (codes "file")
    else none

-- The element goes up to `disk_end`, and the search goes on behind it.
abbrev pub element_source : Bytes → Option Bytes → Option Bytes
element_source pos none = none
element_source pos (some disk_end) = disk_source (take (length pos - length disk_end) pos)

abbrev pub behind_element : Option Bytes → Option Bytes
behind_element none = none
behind_element (some disk_end) = next_disk (drop 7 disk_end)

-- The loop over the elements, with fuel for the rounds.
unfoldable pub disk_loop : ℕ → Option Bytes → List Bytes
disk_loop zero pos = []
disk_loop (suc fuel) none = []
disk_loop (suc fuel) (some pos) =
    let disk_end = strstr pos (codes "</disk>") in
    add_path (element_source pos disk_end) (disk_loop fuel (behind_element disk_end))

abbrev is_qcow2 : Option Bytes → Bool
is_qcow2 none = false
is_qcow2 (some nvram_fmt) = strcmp_eq nvram_fmt (codes "qcow2")

-- The file of the NVRAM, if it is a qcow2 file too.
unfoldable pub nvram_source : Bytes → Option Bytes → List Bytes
nvram_source xml none = []
nvram_source xml (some []) = []
nvram_source xml (some (c ∷ path)) =
    if is_qcow2 (extract_xml_attr xml (codes "nvram") (codes "format")) then (c ∷ path) ∷ [] else []

-- Each round of the loop takes the seven bytes of `</disk>`. Without XML the source has no paths.
unfoldable pub get_domain_disk_paths : Option Bytes → List Bytes
get_domain_disk_paths none = []
get_domain_disk_paths (some xml) =
    disk_loop (suc (length xml)) (next_disk xml)
    ++ nvram_source xml (extract_xml_content_ext xml (codes "nvram"))
