-- ===== src/Libvirt/Folders.antt =====
-- src/libvirt_backend.c: the shared folders of a machine.
use qemu_snapshot_web_manage.Prelude.{
  ℕ, zero, suc, ◌-◌, ◌==◌, Bool, true, false, not, ◌||◌, Option, none, some, List, [], ◌∷◌, ◌++◌,
  if◌then◌else◌, map, Bytes, codes, length, take, drop, ltb, snprintf_s, strcmp_eq, strstr,
}
use qemu_snapshot_web_manage.Prelude.Int.{ℤ, pos, negsuc}
use qemu_snapshot_web_manage.Backend.{SharedFolder}
use qemu_snapshot_web_manage.Libvirt.Xml.{is_found}
use qemu_snapshot_web_manage.Libvirt.Disks.{extract_xml_attr}
use qemu_snapshot_web_manage.Libvirt.Session.{vir_domain_running, vir_domain_paused}
pub mod Calls
pub mod Lock
pub mod Fuel

abbrev pub is_live : ℕ → Bool
is_live state = state == vir_domain_running || state == vir_domain_paused

-- The text before the place `end` of `from`.
abbrev pub before_end : Bytes → Bytes → Bytes
before_end from end = take (length from - length end) from

abbrev folder_of : Bytes → Bool → SharedFolder → Option Bytes → Option Bytes → Option SharedFolder
folder_of block is_virtiofs cell (some source) (some target) = some (record cell {
  source_dir = some source;
  mount_tag = some target;
  fs_type = some (if is_virtiofs then codes "virtiofs" else codes "9p");
  read_only = is_found (strstr block (codes "readonly"));
})
folder_of block is_virtiofs cell _ _ = none

-- The folder of a `<filesystem>` block, where `cell` is its element before it is set.
unfoldable pub read_folder : SharedFolder → Bytes → Option SharedFolder
read_folder cell block =
    let is_virtiofs = is_found (strstr block (codes "virtiofs")) in
    let is_9p = is_found (strstr block (codes "9p")) || is_found (strstr block (codes "'path'")) in
    if is_virtiofs || is_9p
    then folder_of block is_virtiofs cell (extract_xml_attr block (codes "source") (codes "dir"))
        (extract_xml_attr block (codes "target") (codes "dir"))
    else none

abbrev pub cleared : SharedFolder
cleared = record {
  source_dir = none;
  mount_tag = none;
  fs_type = none;
  read_only = false;
  mounted = pos 0;
  needs_restart = false;
}

-- `calloc` clears the first four elements, and `left` is what `realloc` leaves in the others.
abbrev cell_at : (ℕ → SharedFolder) → ℕ → SharedFolder
cell_at left n = if ltb n 4 then cleared else left n

-- The blocks from each `<filesystem` up to `end_len` bytes behind the start of the next `</filesystem>`,
-- with fuel for the rounds; each takes a byte at least.
unfoldable pub blocks : ℕ → ℕ → Bytes → List Bytes
blocks zero end_len from = []
blocks (suc fuel) end_len from = elim (strstr from (codes "<filesystem")) [
  | none ↦ []
  | some start ↦ elim (strstr start (codes "</filesystem>")) [
    | none ↦ []
    | some fs_end ↦ before_end start (drop end_len fs_end) ∷ blocks fuel end_len (drop 1 fs_end)
  ]
]

unfoldable pub read_folders : (ℕ → SharedFolder) → ℕ → List Bytes → List SharedFolder
read_folders left n [] = []
read_folders left n (block ∷ rest) = elim (read_folder (cell_at left n) block) [
  | none ↦ read_folders left n rest
  | some folder ↦ folder ∷ read_folders left (suc n) rest
]

unfoldable pub folders_in : (ℕ → SharedFolder) → Bytes → List SharedFolder
folders_in left xml = read_folders left 0 (blocks (suc (length xml)) 0 xml)

abbrev tag_or_empty : Option Bytes → Bytes
tag_or_empty none = []
tag_or_empty (some tag) = tag

abbrev dir_needle : Bytes → Bytes
dir_needle tag = snprintf_s 256 (codes "dir='" ++ (tag ++ codes "'"))

unfoldable pub mark_restart : Bytes → SharedFolder → SharedFolder
mark_restart live f =
    if is_found (strstr live (dir_needle (tag_or_empty f.mount_tag)))
    then f
    else record f { needs_restart = true }

abbrev pub marked : Option Bytes → List SharedFolder → List SharedFolder
marked none folders = folders
marked (some live) folders = map (mark_restart live) folders

abbrev pub mem_backing : Bytes
mem_backing =
    codes
      "<memoryBacking>\n    <source type='memfd'/>\n    <access mode='shared'/>\n  </memoryBacking>\n"

abbrev pub is_shared : Bytes → Bool
is_shared xml = is_found (strstr xml (codes "<access mode='shared'"))

-- The XML with shared memory, in front of the end of the machine.
unfoldable pub shared_xml : Bytes → Option Bytes
shared_xml domxml = elim (strstr domxml (codes "</domain>")) [
  | none ↦ none
  | some insert_point ↦
      some (before_end domxml insert_point ++ (codes "  " ++ (mem_backing ++ insert_point)))
]

abbrev pub is_9p_type : Bytes → Bool
is_9p_type fs_type = strcmp_eq fs_type (codes "9p")

abbrev readonly_part : Bool → Bytes
readonly_part true = codes "  <readonly/>\n"
readonly_part false = []

abbrev driver_part : Bool → Bytes
driver_part true =
    codes
      "<filesystem type='mount' accessmode='mapped'>\n  <driver type='path' wrpolicy='immediate'/>\n"
driver_part false =
    codes "<filesystem type='mount' accessmode='passthrough'>\n  <driver type='virtiofs'/>\n"

-- The names are put into the XML as they are.
unfoldable pub filesystem_xml : Bytes → Bytes → Bool → Bytes → Bytes
filesystem_xml source_dir mount_tag read_only fs_type = snprintf_s 2048 (
    driver_part (is_9p_type fs_type)
    ++ (codes "  <source dir='"
        ++ (source_dir
            ++ (codes "'/>\n  <target dir='"
                ++ (mount_tag
                    ++ (codes "'/>\n" ++ (readonly_part read_only ++ codes "</filesystem>")))))))

abbrev mount_type : Bytes → Bytes
mount_type fs_type = if is_9p_type fs_type then codes "9p" else codes "virtiofs"

unfoldable pub mount_command : Bytes → Bytes → Bytes
mount_command mount_tag fs_type = snprintf_s 1024 (
    codes "mkdir -p /media/"
    ++ (mount_tag
        ++ (codes " && mount -t "
            ++ (mount_type fs_type
                ++ (codes " "
                    ++ (mount_tag ++ (codes " /media/" ++ (mount_tag ++ codes " 2>/dev/null"))))))))

unfoldable pub umount_command : Bytes → Bytes
umount_command mount_tag = snprintf_s 512 (
    codes "umount /media/"
    ++ (mount_tag
        ++ (codes " 2>/dev/null; sed -i '/^"
            ++ (mount_tag ++ codes "$/d' /etc/qemu-no-automount 2>/dev/null; true"))))

-- The block whose target is the tag.
abbrev has_target : Bytes → Option Bytes → Bool
has_target mount_tag none = false
has_target mount_tag (some target_tag) =
    is_found (strstr target_tag (dir_needle mount_tag))
    || is_found (strstr target_tag (snprintf_s 256 (codes "dir=\"" ++ (mount_tag ++ codes "\""))))

unfoldable pub block_with : Bytes → List Bytes → Option Bytes
block_with mount_tag [] = none
block_with mount_tag (block ∷ rest) =
    let later = block_with mount_tag rest in
    if has_target mount_tag (strstr block (codes "<target ")) then some block else later

abbrev pub failed_code : ℤ
failed_code = negsuc 0

abbrev pub required_code : ℤ
required_code = negsuc 1

abbrev pub is_zero : ℤ → Bool
is_zero (pos n) = n == 0
is_zero (negsuc n) = false

abbrev pub lacks_shared : Option Bytes → Bool
lacks_shared none = false
lacks_shared (some xml) = not (is_shared xml)
