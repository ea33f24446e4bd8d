-- ===== src/Snapshot/CurrentState.antt =====
-- `snapshot_tree_add_current_state`: where the virtual node of the current state goes.
use qemu_snapshot_web_manage.Prelude.{
  ℕ, zero, suc, ◌+◌, ◌≤◌, ◌<◌, ◌≡◌, ◌≢◌, refl, ap, ◌∙◌, inl, inr, true, Option, none, some, List,
  [], ◌∷◌, ◌++◌, append-nil, append_assoc, arith, if◌then◌else◌, Bool-cases, length,
}
use qemu_snapshot_web_manage.Snapshot.{
  Node, Nodes, Pointer, NodePath, node, nil, cons, info, child_count, first_some, find_from,
  find_null, count_node, count_in, snapshot_tree_count, push_children, find_current, locate_current,
}
use qemu_snapshot_web_manage.Snapshot.Search.{node_at, node_in}

-- The order in which the stack hands out the nodes: the children from right to left.
unfoldable mutual
  pub stack_order : NodePath → Node → List Pointer
  stack_order p (node i cs) = (p, node i cs) ∷ stack_order_in p 0 cs

  pub stack_order_in : NodePath → ℕ → Nodes → List Pointer
  stack_order_in p k nil = []
  stack_order_in p k (cons c cs) = stack_order_in p (k + 1) cs ++ stack_order (p ++ k ∷ []) c

abbrev pending : List Pointer → List Pointer
pending [] = []
pending ((p, n) ∷ stack) = stack_order p n ++ pending stack

abbrev weight : List Pointer → ℕ
weight [] = 0
weight ((p, n) ∷ stack) = count_node n + weight stack

abbrev pub first_current : List Pointer → Option Pointer
first_current [] = none
first_current ((p, n) ∷ r) = if (info n).is_current then some (p, n) else first_current r

first_current-append :
    (xs ys : List Pointer)
    → first_current (xs ++ ys) ≡ first_some (first_current xs) (first_current ys)
first_current-append [] ys = refl
first_current-append ((p, n) ∷ xs) ys = ground (arith, first_current-append xs ys)

child_count-le : (cs : Nodes) → child_count cs ≤ count_in cs
unfolding count_node
child_count-le nil = omega arith
child_count-le (cons (node i ds) cs) = omega (arith, child_count-le cs)

length-weight-le : (stack : List Pointer) → length stack ≤ weight stack
unfolding count_node
length-weight-le [] = omega arith
length-weight-le ((p, node i cs) ∷ stack) = omega (arith, length-weight-le stack)

module _ (p : NodePath) where
  pending-push :
      (cs : Nodes) (k : ℕ) (stack : List Pointer)
      → length stack + child_count cs ≤ 255
      → pending (push_children p k cs stack) ≡ stack_order_in p k cs ++ pending stack
  unfolding push_children stack_order
  pending-push nil k stack h = refl
  pending-push (cons c cs) k stack h =
      let room : length stack < 255 = omega arith in
      ground (
        arith,
        pending-push cs (k + 1) ((p ++ k ∷ [], c) ∷ stack),
        append_assoc (stack_order_in p (k + 1) cs) (stack_order (p ++ k ∷ []) c) (pending stack),
      )

  weight-push :
      (cs : Nodes) (k : ℕ) (stack : List Pointer)
      → weight (push_children p k cs stack) ≤ count_in cs + weight stack
  unfolding push_children count_node
  weight-push nil k stack = omega arith
  weight-push (cons c cs) k stack =
      ground (arith, weight-push cs (k + 1) ((p ++ k ∷ [], c) ∷ stack))

-- With enough rounds and a stack that never fills up, the search sees every pending node.
find_current-pending :
    (fuel : ℕ) (stack : List Pointer)
    → weight stack < fuel
    → weight stack ≤ 256
    → find_current fuel stack ≡ first_current (pending stack)
unfolding find_current stack_order count_node
find_current-pending zero stack f h = absurd (omega arith)
find_current-pending (suc fuel) [] f h = refl
find_current-pending (suc fuel) ((p, node i cs) ∷ stack) f h =
    let fits : length stack + child_count cs ≤ 255 =
      omega (arith, child_count-le cs, length-weight-le stack) in
    ground (
      arith,
      weight-push p cs 0 stack,
      pending-push p cs 0 stack,
      find_current-pending fuel (push_children p 0 cs stack),
    )

pub find_null-none : (k : ℕ) (cs : Nodes) → find_null k cs none ≡ none
unfolding find_null find_from
find_null-none k nil = refl
find_null-none k (cons (node i ds) cs) = find_null-none (k + 1) cs

-- In a tree of at most 256 nodes the search takes the first current node in its order.
pub locate_current-stack_order :
    (root : Node)
    → snapshot_tree_count (some root) ≤ 256
    → locate_current root ≡ first_current (stack_order [] root)
unfolding locate_current snapshot_tree_count stack_order
locate_current-stack_order (node i cs) h =
    let root = node i cs in
    let walk : find_current (suc (count_node root)) (([], root) ∷ [])
        ≡ first_current (stack_order [] root) =
      find_current-pending (suc (count_node root)) (([], root) ∷ []) (omega arith) (omega arith)
      ∙ ap first_current (append-nil (stack_order [] root)) in
    elim (Bool-cases i.is_current) [
      | inl here ↦ ground (arith, find_null-none 0 cs)
      | inr below ↦ ground (arith, find_null-none 0 cs, walk)
    ]

mutual
  unfolding stack_order node_at

  pub first_current-present :
      (t : Node) (p q : NodePath) (n : Node)
      → node_at t q ≡ some n
      → (info n).is_current ≡ true
      → first_current (stack_order p t) ≢ none
  first_current-present (node i cs) p [] n e c = ground (arith)
  first_current-present (node i cs) p (k ∷ q) n e c =
      ground (arith, first_current_in-present cs p 0 k q n e c)

  first_current_in-present :
      (cs : Nodes) (p : NodePath) (j k : ℕ) (q : NodePath) (n : Node)
      → node_in cs k q ≡ some n
      → (info n).is_current ≡ true
      → first_current (stack_order_in p j cs) ≢ none
  first_current_in-present nil p j k q n e c = cc
  first_current_in-present (cons t cs) p j zero q n e c =
      rw first_current-append (ground (arith, first_current-present t (p ++ j ∷ []) q n e c))
  first_current_in-present (cons t cs) p j (suc k) q n e c =
      rw first_current-append (ground (arith, first_current_in-present cs p (j + 1) k q n e c))
