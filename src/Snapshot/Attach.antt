-- ===== src/Snapshot/Attach.antt =====
-- What `snapshot_tree_add_current_state` does to the tree.
use qemu_snapshot_web_manage.Prelude.{
  ℕ, zero, suc, ◌+◌, ◌≤◌, ◌≡◌, refl, sym, ◌∙◌, inl, inr, Bool, true, false, Option, none, some,
  List, [], ◌∷◌, ◌++◌, arith, All, Bytes, ltb, Bool-cases, Option-cases, length,
}
use qemu_snapshot_web_manage.Snapshot.{
  Info, Node, Nodes, Pointer, NodePath, node, nil, cons, info, children, child_count, count_node,
  count_in, snapshot_tree_count, push_children, find_current, locate_current, add_child_at,
  add_child_in, snapshot_node_add_child, append_child, state_node, snapshot_tree_add_current_state,
}
use qemu_snapshot_web_manage.Snapshot.Search.{node_at, node_in}
use qemu_snapshot_web_manage.Snapshot.CurrentState.{
  find_null-none, first_current-present, locate_current-stack_order,
}

pub count_in-append_child :
    (cs : Nodes) (c : Node) → count_in (append_child cs c) ≡ count_in cs + count_node c
unfolding append_child count_node
count_in-append_child nil c = omega arith
count_in-append_child (cons d cs) c = omega (arith, count_in-append_child cs c)

node_in-append_child :
    (cs : Nodes) (c : Node) → node_in (append_child cs c) (child_count cs) [] ≡ some c
unfolding append_child node_at
node_in-append_child nil (node i ds) = refl
node_in-append_child (cons d cs) c = node_in-append_child cs c

module _ (child n : Node) where
  mutual
    unfolding add_child_at snapshot_node_add_child count_node node_at

    count-add_child_at :
        (t : Node) (p : NodePath)
        → node_at t p ≡ some n
        → count_node (add_child_at t p child) ≡ count_node t + count_node child
    count-add_child_at (node i cs) [] e = omega (arith, count_in-append_child cs child)
    count-add_child_at (node i cs) (k ∷ p) e = omega (arith, count-add_child_in cs k p e)

    count-add_child_in :
        (cs : Nodes) (k : ℕ) (p : NodePath)
        → node_in cs k p ≡ some n
        → count_in (add_child_in cs k p child) ≡ count_in cs + count_node child
    count-add_child_in nil k p e = cc
    count-add_child_in (cons c cs) zero p e = omega (arith, count-add_child_at c p e)
    count-add_child_in (cons c cs) (suc k) p e = omega (arith, count-add_child_in cs k p e)

  mutual
    unfolding add_child_at snapshot_node_add_child node_at

    node_at-add_child_at :
        (t : Node) (p : NodePath)
        → node_at t p ≡ some n
        → node_at (add_child_at t p child) (p ++ child_count (children n) ∷ []) ≡ some child
    node_at-add_child_at (node i cs) [] e =
        let same : node i cs ≡ n = ground arith in rw (← same) (node_in-append_child cs child)
    node_at-add_child_at (node i cs) (k ∷ p) e = node_in-add_child_in cs k p e

    node_in-add_child_in :
        (cs : Nodes) (k : ℕ) (p : NodePath)
        → node_in cs k p ≡ some n
        → node_in (add_child_in cs k p child) k (p ++ child_count (children n) ∷ []) ≡ some child
    node_in-add_child_in nil k p e = cc
    node_in-add_child_in (cons c cs) zero p e = node_at-add_child_at c p e
    node_in-add_child_in (cons c cs) (suc k) p e = node_in-add_child_in cs k p e

mutual
  unfolding node_at

  node_at-append :
      (t : Node) (p q : NodePath) (n : Node)
      → node_at t p ≡ some n
      → node_at t (p ++ q) ≡ node_at n q
  node_at-append (node i cs) [] q n e = ground arith
  node_at-append (node i cs) (k ∷ p) q n e = node_in-append cs k p q n e

  node_in-append :
      (cs : Nodes) (k : ℕ) (p q : NodePath) (n : Node)
      → node_in cs k p ≡ some n
      → node_in cs k (p ++ q) ≡ node_at n q
  node_in-append nil k p q n e = cc
  node_in-append (cons c cs) zero p q n e = node_at-append c p q n e
  node_in-append (cons c cs) (suc k) p q n e = node_in-append cs k p q n e

-- The pointer leads to the node that it names.
abbrev pub Leads : Node → Pointer → Type 0
Leads root (p, n) = node_at root p ≡ some n

-- A node of the tree and its children at `p`, from the `k`-th on.
abbrev HasChildren : Node → NodePath → ℕ → Nodes → Type 0
HasChildren root p k cs = (j : ℕ) → node_at root (p ++ (k + j) ∷ []) ≡ node_in cs j []

HasChildren-tail :
    (root : Node) (p : NodePath) (k : ℕ) (c : Node) (cs : Nodes)
    → HasChildren root p k (cons c cs)
    → HasChildren root p (k + 1) cs
unfolding node_at
HasChildren-tail root p k c cs h j =
    let same : k + 1 + j ≡ k + suc j = omega arith in rw same (h (suc j))

HasChildren-head :
    (root : Node) (p : NodePath) (k : ℕ) (c : Node) (cs : Nodes)
    → HasChildren root p k (cons c cs)
    → node_at root (p ++ k ∷ []) ≡ some c
unfolding node_at
HasChildren-head root p k (node i ds) cs h = let same : k + 0 ≡ k = omega arith in rw (← same) (h 0)

push_children-Leads :
    (root : Node) (p : NodePath) (cs : Nodes) (k : ℕ) (stack : List Pointer)
    → HasChildren root p k cs
    → All (Leads root) stack
    → All (Leads root) (push_children p k cs stack)
unfolding push_children
push_children-Leads root p nil k stack h s = s
push_children-Leads root p (cons c cs) k stack h s = elim (Bool-cases (ltb (length stack) 255)) [
  | inl room ↦ rw room (
      push_children-Leads root p cs (k + 1) ((p ++ k ∷ [], c) ∷ stack)
        (HasChildren-tail root p k c cs h) (HasChildren-head root p k c cs h, s))
  | inr full ↦ rw full s
]

HasChildren-node_at :
    (root : Node) (p : NodePath) (i : Info) (cs : Nodes)
    → node_at root p ≡ some (node i cs)
    → HasChildren root p 0 cs
unfolding node_at
HasChildren-node_at root p i cs e j =
    let same : 0 + j ≡ j = omega arith in rw same (node_at-append root p (j ∷ []) (node i cs) e)

-- Nothing, or a node of the tree, at its path, that is current.
abbrev pub IsCurrentIn : Node → Option Pointer → Type 0
IsCurrentIn root none = Unit
IsCurrentIn root (some (p, n)) = (node_at root p ≡ some n) × ((info n).is_current ≡ true)

find_current-IsCurrentIn :
    (root : Node) (fuel : ℕ) (stack : List Pointer)
    → All (Leads root) stack
    → IsCurrentIn root (find_current fuel stack)
unfolding find_current
find_current-IsCurrentIn root zero stack s = tt
find_current-IsCurrentIn root (suc fuel) [] s = tt
find_current-IsCurrentIn root (suc fuel) ((q, node i cs) ∷ stack) s =
    let pushed = push_children-Leads root q cs 0 stack (HasChildren-node_at root q i cs s.0) s.1 in
    ground (arith, find_current-IsCurrentIn root fuel (push_children q 0 cs stack) pushed)

-- Whatever the search finds, in a tree of any size, is a node of the tree that is current.
pub locate_current-IsCurrentIn : (root : Node) → IsCurrentIn root (locate_current root)
unfolding locate_current node_at
locate_current-IsCurrentIn (node i cs) = ground (
  arith,
  find_null-none 0 cs,
  find_current-IsCurrentIn (node i cs) (suc (count_node (node i cs))) (([], node i cs) ∷ [])
      (refl, tt),
)

-- Where the state node goes, and what the tree is then.
pub record Shows (root state : Node) (result : Option Node) : Type 0 where
  pub at : NodePath
  pub target : Node
  pub shown : Node
  pub result_is : result ≡ some shown
  pub found : node_at root at ≡ some target
  pub current : (info target).is_current ≡ true
  pub attached : node_at shown (at ++ child_count (children target) ∷ []) ≡ some state
  pub counted : count_node shown ≡ count_node root + 1

count-state_node : (vm_state : Bytes) (dirty : Bool) → count_node (state_node vm_state dirty) ≡ 1
unfolding count_node state_node
count-state_node vm_state dirty = refl

add_current_state-at :
    (root : Node) (vm_state : Bytes) (dirty : Bool) (p : NodePath) (n : Node)
    → locate_current root ≡ some (p, n)
    → Shows root
        (state_node vm_state dirty)
        (snapshot_tree_add_current_state (some root) vm_state dirty)
unfolding snapshot_tree_add_current_state
add_current_state-at root vm_state dirty p n e =
    let state = state_node vm_state dirty in
    let held : IsCurrentIn root (some (p, n)) = rw e at (locate_current-IsCurrentIn root) in
    record {
      at = p;
      target = n;
      shown = add_child_at root p state;
      result_is = rw e;
      found = held.0;
      current = held.1;
      attached = node_at-add_child_at state n root p held.0;
      counted =
          omega (arith, count-add_child_at state n root p held.0, count-state_node vm_state dirty);
    }

-- In a tree of at most 256 nodes that has a current snapshot, the state of the machine is shown
-- as the last child of a current snapshot, and the tree has one node more.
pub add_current_state-Shows :
    (root n : Node) (q : NodePath) (vm_state : Bytes) (dirty : Bool)
    → snapshot_tree_count (some root) ≤ 256
    → node_at root q ≡ some n
    → (info n).is_current ≡ true
    → Shows root
        (state_node vm_state dirty)
        (snapshot_tree_add_current_state (some root) vm_state dirty)
add_current_state-Shows root n q vm_state dirty h e c = elim (Option-cases (locate_current root)) [
  | inl missed ↦
      absurd
        (first_current-present root [] q n e c (sym (locate_current-stack_order root h) ∙ missed))
  | inr ((p, m), hit) ↦ add_current_state-at root vm_state dirty p m hit
]

-- A tree with no current snapshot is left as it is, whatever its size.
pub add_current_state-unchanged :
    (root : Node) (vm_state : Bytes) (dirty : Bool)
    → ((q : NodePath) (n : Node) → node_at root q ≡ some n → (info n).is_current ≡ false)
    → snapshot_tree_add_current_state (some root) vm_state dirty ≡ some root
unfolding snapshot_tree_add_current_state
add_current_state-unchanged root vm_state dirty none_current =
    elim (Option-cases (locate_current root)) [
      | inl missed ↦ rw missed
      | inr ((p, m), hit) ↦
          let held : IsCurrentIn root (some (p, m)) = rw hit at (locate_current-IsCurrentIn root) in
          cc (held.1, none_current p m held.0)
    ]
