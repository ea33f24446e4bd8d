-- ===== src/Snapshot.antt =====
-- src/snapshot.c: the tree of snapshots that the interface shows.
-- A node with its children is a value; a pointer into a tree is the path of child indices that
-- leads to a node, with the node. The field `parent` is what stands above on the path.
pub mod Search
pub mod CurrentState
pub mod Attach
pub mod Wide
pub mod Export
use qemu_snapshot_web_manage.Prelude.{
  ℕ, zero, suc, ◌+◌, ◌*◌, Bool, true, false, Option, none, some, List, [], ◌∷◌, ◌++◌, ◌==◌,
  if◌then◌else◌, Bytes, codes, strcmp_eq, ltb, length, snprintf_s,
}

pub data SnapType : Type 0 where
  internal external current_state : SnapType

-- A NULL string is `none`.
pub record Info : Type 0 where
  pub id : Option Bytes
  pub description : Option Bytes
  pub creation_time : Option Bytes
  pub type : SnapType
  pub is_current : Bool
  pub is_dirty : Bool
  pub child_capacity : ℕ

mutual
  pub data Node : Type 0 where
    node : Info → Nodes → Node

  pub data Nodes : Type 0 where
    nil : Nodes
    cons : Node → Nodes → Nodes

abbrev pub info : Node → Info
info (node i cs) = i

abbrev pub children : Node → Nodes
children (node i cs) = cs

abbrev pub child_count : Nodes → ℕ
child_count nil = 0
child_count (cons c cs) = suc (child_count cs)

abbrev pub NodePath : Type 0
NodePath = List ℕ

abbrev pub Pointer : Type 0
Pointer = NodePath × Node

-- `str_eq` of src/util.c
abbrev pub str_eq : Option Bytes → Option Bytes → Bool
str_eq none none = true
str_eq none (some b) = false
str_eq (some a) none = false
str_eq (some a) (some b) = strcmp_eq a b

abbrev pub initial_child_capacity : ℕ
initial_child_capacity = 4

unfoldable pub snapshot_node_new :
    Option Bytes → Option Bytes → Option Bytes → SnapType → Bool → Node
snapshot_node_new id description creation_time type is_current =
    node
      (record {
        id = id;
        description = description;
        creation_time = creation_time;
        type = type;
        is_current = is_current;
        is_dirty = false;
        child_capacity = initial_child_capacity;
      })
      nil

unfoldable pub append_child : Nodes → Node → Nodes
append_child nil child = cons child nil
append_child (cons c cs) child = cons c (append_child cs child)

-- The array doubles when it is full.
unfoldable pub snapshot_node_add_child : Node → Node → Node
unfolding append_child
snapshot_node_add_child (node i cs) child =
    node
      (if child_count cs == i.child_capacity
        then record i { child_capacity = i.child_capacity * 2 }
        else i)
      (append_child cs child)

-- `snapshot_node_add_child` on the node at a path: its ancestors keep their other children.
unfoldable mutual
  pub add_child_at : Node → NodePath → Node → Node
  add_child_at (node i cs) [] child = snapshot_node_add_child (node i cs) child
  add_child_at (node i cs) (k ∷ p) child = node i (add_child_in cs k p child)

  pub add_child_in : Nodes → ℕ → NodePath → Node → Nodes
  add_child_in nil k p child = nil
  add_child_in (cons c cs) zero p child = cons (add_child_at c p child) cs
  add_child_in (cons c cs) (suc k) p child = cons c (add_child_in cs k p child)

abbrev pub first_some {ℓ} : {A : Type ℓ} → Option A → Option A → Option A
first_some none r = r
first_some (some a) r = some a

-- `snapshot_tree_find`, from the node at path `p`.
unfoldable mutual
  pub find_from : NodePath → Node → Option Bytes → Option Pointer
  find_from p (node i cs) none = none
  find_from p (node i cs) (some id) =
      if str_eq i.id (some id) then some (p, node i cs) else find_in p 0 cs (some id)

  pub find_in : NodePath → ℕ → Nodes → Option Bytes → Option Pointer
  find_in p k nil id = none
  find_in p k (cons c cs) id = first_some (find_from (p ++ k ∷ []) c id) (find_in p (k + 1) cs id)

unfoldable pub snapshot_tree_find : Option Node → Option Bytes → Option Pointer
unfolding find_from
snapshot_tree_find none id = none
snapshot_tree_find (some root) id = find_from [] root id

unfoldable mutual
  pub count_node : Node → ℕ
  count_node (node i cs) = 1 + count_in cs

  pub count_in : Nodes → ℕ
  count_in nil = 0
  count_in (cons c cs) = count_node c + count_in cs

unfoldable pub snapshot_tree_count : Option Node → ℕ
unfolding count_node
snapshot_tree_count none = 0
snapshot_tree_count (some root) = count_node root

-- The nodes in the order in which `snapshot_tree_free` releases them.
unfoldable mutual
  pub snapshot_tree_free : NodePath → Node → List NodePath
  snapshot_tree_free p (node i cs) = free_in p 0 cs ++ p ∷ []

  pub free_in : NodePath → ℕ → Nodes → List NodePath
  free_in p k nil = []
  free_in p k (cons c cs) = snapshot_tree_free (p ++ k ∷ []) c ++ free_in p (k + 1) cs

-- The inner loop of the search: the children go on the stack while it has room.
unfoldable pub push_children : NodePath → ℕ → Nodes → List Pointer → List Pointer
push_children p k nil stack = stack
push_children p k (cons c cs) stack =
    if ltb (length stack) 255 then push_children p (k + 1) cs ((p ++ k ∷ [], c) ∷ stack) else stack

-- `while (top > 0)`, with fuel for the rounds; the head of the list is the top of the stack.
unfoldable pub find_current : ℕ → List Pointer → Option Pointer
unfolding push_children
find_current zero stack = none
find_current (suc fuel) [] = none
find_current (suc fuel) ((p, n) ∷ stack) =
    let rest = find_current fuel (push_children p 0 (children n) stack) in
    if (info n).is_current then some (p, n) else rest

-- The loop over `snapshot_tree_find(child, NULL)`, which keeps the last result.
unfoldable pub find_null : ℕ → Nodes → Option Pointer → Option Pointer
find_null k nil current = current
find_null k (cons c cs) current = find_null (k + 1) cs (find_from (k ∷ []) c none)

-- Each round takes a node off the stack, and none is pushed twice: `count + 1` rounds are enough.
unfoldable pub locate_current : Node → Option Pointer
unfolding find_null find_from find_current
locate_current (node i cs) =
    let walk = find_current (suc (count_node (node i cs))) (([], node i cs) ∷ []) in
    first_some (if i.is_current then some ([], node i cs) else find_null 0 cs none) walk

abbrev mark_dirty : Node → Bool → Node
mark_dirty (node i cs) dirty = node (record i { is_dirty = dirty }) cs

unfoldable pub state_node : Bytes → Bool → Node
unfolding snapshot_node_new
state_node vm_state is_dirty =
    mark_dirty
      (snapshot_node_new (some (codes "__current_state__"))
        (some (snprintf_s 128 (if is_dirty then vm_state ++ codes " (modified)" else vm_state)))
        (some []) current_state false)
      is_dirty

abbrev pub attach_state : Node → Option Pointer → Node → Node
attach_state root none state = root
attach_state root (some (p, n)) state = add_child_at root p state

unfoldable pub snapshot_tree_add_current_state : Option Node → Bytes → Bool → Option Node
snapshot_tree_add_current_state none vm_state is_dirty = none
snapshot_tree_add_current_state (some root) vm_state is_dirty =
    some (attach_state root (locate_current root) (state_node vm_state is_dirty))
