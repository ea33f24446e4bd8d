-- ===== src/Libvirt/Listing/Tree.antt =====
-- The tree of nodes that `lv_list_snapshots` of src/libvirt_backend.c hands out.
pub mod Trail
pub mod Below
pub mod Whole
use qemu_snapshot_web_manage.Prelude.{
  ℕ, zero, suc, false, Option, none, some, List, [], ◌∷◌, map, Bytes, length, get_elem?,
}
use qemu_snapshot_web_manage.Snapshot.{Node, internal, snapshot_node_new, snapshot_node_add_child}
use qemu_snapshot_web_manage.Libvirt.Listing.{Listed, Links, node_of, lv_list_snapshots}

-- No link leads to a node that is not listed.
abbrev or_bare : Option Node → Node
or_bare none = snapshot_node_new none none none internal false
or_bare (some n) = n

unfoldable pub add_children : Node → List Node → Node
add_children parent [] = parent
add_children parent (c ∷ cs) = add_children (snapshot_node_add_child parent c) cs

-- What the pointer to a node leads to, with fuel for its depth.
unfoldable pub tree_at : (ℕ → Node) → (ℕ → List ℕ) → ℕ → ℕ → Node
tree_at nodes kids zero i = nodes i
tree_at nodes kids (suc fuel) i = add_children (nodes i) (map (tree_at nodes kids fuel) (kids i))

abbrev pub node_at : (Bytes → Bytes) → Option Bytes → List Listed → ℕ → Node
node_at iso current_name snaps i = or_bare (get_elem? (map (node_of iso current_name) snaps) i)

abbrev tree_from : (ℕ → Node) → (ℕ → List ℕ) → ℕ → Option ℕ → Option Node
tree_from nodes kids fuel none = none
tree_from nodes kids fuel (some root) = some (tree_at nodes kids fuel root)

unfoldable pub tree_of : (Bytes → Bytes) → Option Bytes → List Listed → Option Node
tree_of iso current_name snaps =
    let l = lv_list_snapshots snaps in
    tree_from (node_at iso current_name snaps) l.kids (length snaps) l.root
