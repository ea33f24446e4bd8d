-- ===== src/Libvirt/Listing.antt =====
-- `lv_list_snapshots` of src/libvirt_backend.c, from what libvirt has listed: the names and the XML of
-- the snapshots in libvirt's order, and the name of the current one.
pub mod Reach
pub mod Single
pub mod Tree
pub mod Occurs
use qemu_snapshot_web_manage.Prelude.{
  ℕ, suc, ◌+◌, Bool, true, false, not, ◌&&◌, Option, none, some, List, [], ◌∷◌, ◌++◌, ◌==◌,
  if◌then◌else◌, Bytes, codes, get_elem?, strcmp_eq,
}
use qemu_snapshot_web_manage.Snapshot.{
  SnapType, internal, external, Node, str_eq, snapshot_node_new,
}
use qemu_snapshot_web_manage.Snapshot.Export.{or_empty}
use qemu_snapshot_web_manage.Libvirt.Xml.{
  extract_xml_content, extract_snapshot_parent_name, is_external,
}

pub record Listed : Type 0 where
  pub name : Bytes
  pub xml : Option Bytes

abbrev content_of : Option Bytes → Bytes → Option Bytes
content_of none tag = none
content_of (some xml) tag = extract_xml_content xml tag

-- `unix_to_iso` calls `gmtime_r` and `strftime`: it is the parameter `iso`.
abbrev iso_time : (Bytes → Bytes) → Option Bytes → Bytes
iso_time iso none = []
iso_time iso (some ctime_str) = iso ctime_str

abbrev type_of : Option Bytes → SnapType
type_of none = internal
type_of (some xml) = if is_external xml then external else internal

abbrev is_named : Option Bytes → Bytes → Bool
is_named none name = false
is_named (some current_name) name = strcmp_eq name current_name

-- Phase 1: the node of a snapshot.
unfoldable pub node_of : (Bytes → Bytes) → Option Bytes → Listed → Node
node_of iso current_name s =
    snapshot_node_new (some s.name) (some (or_empty (content_of s.xml (codes "description"))))
      (some (iso_time iso (content_of s.xml (codes "creationTime")))) (type_of s.xml)
      (is_named current_name s.name)

-- Phase 2 links the nodes, which are known by their index: the children of each, and the root.
pub record Links : Type 0 where
  pub kids : ℕ → List ℕ
  pub root : Option ℕ

-- `snapshot_node_add_child(nodes[j], nodes[i])`
abbrev pub add_kid : (ℕ → List ℕ) → ℕ → ℕ → ℕ → List ℕ
add_kid kids j i k = if k == j then kids k ++ i ∷ [] else kids k

-- The loop over `j`: the first other node with the name of the parent.
unfoldable pub find_parent : ℕ → Bytes → ℕ → List Listed → Option ℕ
find_parent i parent_name j [] = none
find_parent i parent_name j (s ∷ snaps) =
    let rest = find_parent i parent_name (j + 1) snaps in
    if not (j == i) && strcmp_eq s.name parent_name then some j else rest

abbrev found_parent : ℕ → Option Bytes → List Listed → Option ℕ
found_parent i none snaps = none
found_parent i (some parent_name) snaps = find_parent i parent_name 0 snaps

-- The node that a snapshot hangs from, where it has one.
unfoldable pub parent_index : List Listed → ℕ → Listed → Option ℕ
parent_index snaps i s = found_parent i (extract_snapshot_parent_name s.xml) snaps

-- The node is left over: it is the root if there is none yet, and a child of the root otherwise.
unfoldable pub attach_rootless : ℕ → Links → Option ℕ → Links
attach_rootless i l none = record l { root = some i }
attach_rootless i l (some r) = record l { kids = add_kid l.kids r i }

unfoldable pub attach : ℕ → Links → Option ℕ → Links
attach i l none = attach_rootless i l l.root
attach i l (some j) = record l { kids = add_kid l.kids j i }

-- The loop over `i`.
unfoldable pub link_from : List Listed → ℕ → List Listed → Links → Links
link_from snaps i [] l = l
link_from snaps i (s ∷ rest) l = link_from snaps (i + 1) rest (attach i l (parent_index snaps i s))

unfoldable pub lv_list_snapshots : List Listed → Links
lv_list_snapshots snaps = link_from snaps 0 snaps (record { kids = λ k. []; root = none })
