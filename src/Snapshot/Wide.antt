-- ===== src/Snapshot/Wide.antt =====
-- The bound on the stack of `snapshot_tree_add_current_state`, on a node with many children.
use qemu_snapshot_web_manage.Prelude.{
  ℕ, suc, zero, ◌+◌, ◌≤◌, ◌≡◌, refl, false, none, some, List, [], ◌∷◌, ◌++◌, arith, All, Bytes,
  Bool, length,
}
use qemu_snapshot_web_manage.Snapshot.{
  Info, Nodes, Pointer, NodePath, node, nil, cons, count_node, push_children, find_current,
  locate_current, snapshot_tree_add_current_state,
}
use qemu_snapshot_web_manage.Snapshot.CurrentState.{find_null-none}

-- These snapshots, with no children of their own, and then the rest.
abbrev pub leaves : List Info → Nodes → Nodes
leaves [] rest = rest
leaves (i ∷ is) rest = cons (node i nil) (leaves is rest)

abbrev pub IsStale : Info → Type 0
IsStale i = i.is_current ≡ false

abbrev IsStaleLeaf : Pointer → Type 0
IsStaleLeaf (p, node i nil) = IsStale i
IsStaleLeaf (p, node i (cons c cs)) = ⊥

push_children-full :
    (p : NodePath) (k : ℕ) (cs : Nodes) (stack : List Pointer)
    → 255 ≤ length stack
    → push_children p k cs stack ≡ stack
unfolding push_children
push_children-full p k nil stack h = refl
push_children-full p k (cons c cs) stack h = ground arith

push_children-leaves :
    (is : List Info) (p : NodePath) (k : ℕ) (rest : Nodes) (stack : List Pointer)
    → 255 ≤ length stack + length is
    → All IsStale is
    → All IsStaleLeaf stack
    → All IsStaleLeaf (push_children p k (leaves is rest) stack)
unfolding push_children
push_children-leaves [] p k rest stack h a s =
    rw (push_children-full p k rest stack (omega arith)) s
push_children-leaves (i ∷ is) p k rest stack h a s =
    ground (arith, push_children-leaves is p (k + 1) rest ((p ++ k ∷ [], node i nil) ∷ stack))

find_current-stale :
    (fuel : ℕ) (stack : List Pointer) → All IsStaleLeaf stack → find_current fuel stack ≡ none
unfolding find_current push_children
find_current-stale zero stack s = refl
find_current-stale (suc fuel) [] s = refl
find_current-stale (suc fuel) ((p, node i nil) ∷ stack) s =
    ground (arith, find_current-stale fuel stack s.1)
find_current-stale (suc fuel) ((p, node i (cons c cs)) ∷ stack) s = absurd s.0

-- Behind 255 stale children of the root nothing is found: the tree stays without the state of the
-- machine, also where a later child is the current snapshot.
pub add_current_state-misses :
    (i : Info) (is : List Info) (rest : Nodes) (vm_state : Bytes) (dirty : Bool)
    → IsStale i
    → All IsStale is
    → 255 ≤ length is
    → let root = node i (leaves is rest) in
      snapshot_tree_add_current_state (some root) vm_state dirty ≡ some root
unfolding snapshot_tree_add_current_state locate_current find_current
add_current_state-misses i is rest vm_state dirty stale a h =
    let root = node i (leaves is rest) in
    ground (
      arith,
      find_null-none 0 (leaves is rest),
      find_current-stale (count_node root) (push_children [] 0 (leaves is rest) [])
          (push_children-leaves is [] 0 rest [] (omega arith) a tt),
    )
