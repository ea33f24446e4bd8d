-- ===== src/Snapshot/Search.antt =====
-- `snapshot_tree_find`, `count_node` and `snapshot_tree_free` against the preorder of the
-- tree.
use mathlib.Core.List.{Perm, map-append, perm_middle}
use mathlib.Core.List.Perm
use mathlib.Core.Option.{some-injective}
use qemu_snapshot_web_manage.Prelude.{
  ℕ, zero, suc, ◌+◌, ◌≡◌, ◌≢◌, ◌↔◌, refl, sym, ap, inl, inr, true, Option, none, some, List, [],
  ◌∷◌, ◌++◌, map, append-nil, append_assoc, arith, All, All-append, All-mono, Bytes, strcmp_eq_iff,
  if◌then◌else◌, Bool-cases, length, length-append,
}
use qemu_snapshot_web_manage.Snapshot.{
  Node, Nodes, Pointer, NodePath, node, nil, cons, info, str_eq, first_some, find_from, find_in,
  snapshot_tree_find, snapshot_tree_count, count_node, count_in, snapshot_tree_free, free_in,
}

-- Each node before its children, the children from left to right.
unfoldable mutual
  pub preorder : NodePath → Node → List Pointer
  preorder p (node i cs) = (p, node i cs) ∷ preorder_in p 0 cs

  pub preorder_in : NodePath → ℕ → Nodes → List Pointer
  preorder_in p k nil = []
  preorder_in p k (cons c cs) = preorder (p ++ k ∷ []) c ++ preorder_in p (k + 1) cs

-- The node that a path leads to.
unfoldable mutual
  pub node_at : Node → NodePath → Option Node
  node_at (node i cs) [] = some (node i cs)
  node_at (node i cs) (k ∷ p) = node_in cs k p

  pub node_in : Nodes → ℕ → NodePath → Option Node
  node_in nil k p = none
  node_in (cons c cs) zero p = node_at c p
  node_in (cons c cs) (suc k) p = node_in cs k p

-- The first pointer of a list whose node has the name.
abbrev pub first_named : Bytes → List Pointer → Option Pointer
first_named id [] = none
first_named id ((p, n) ∷ r) = if str_eq (info n).id (some id) then some (p, n) else first_named id r

first_named-append :
    (id : Bytes) (xs ys : List Pointer)
    → first_named id (xs ++ ys) ≡ first_some (first_named id xs) (first_named id ys)
first_named-append id [] ys = refl
first_named-append id ((p, n) ∷ xs) ys = ground (arith, first_named-append id xs ys)

mutual
  unfolding find_from preorder

  find_from-preorder :
      (t : Node) (p : NodePath) (id : Bytes)
      → find_from p t (some id) ≡ first_named id (preorder p t)
  find_from-preorder (node i cs) p id = rw (find_in-preorder cs p 0 id)

  find_in-preorder :
      (cs : Nodes) (p : NodePath) (k : ℕ) (id : Bytes)
      → find_in p k cs (some id) ≡ first_named id (preorder_in p k cs)
  find_in-preorder nil p k id = refl
  find_in-preorder (cons c cs) p k id = rw (
    first_named-append id (preorder (p ++ k ∷ []) c),
    find_from-preorder c (p ++ k ∷ []) id,
    find_in-preorder cs p (k + 1) id,
  )

-- A pointer whose path leads below `p` in a tree `t`, to the node that it names.
abbrev LeadsFrom : NodePath → Node → Pointer → Type 0
LeadsFrom p t (q, n) = (r : NodePath) × (q ≡ p ++ r) × (node_at t r ≡ some n)

abbrev LeadsAmong : NodePath → ℕ → Nodes → Pointer → Type 0
LeadsAmong p k cs (q, n) =
    (j : ℕ) × (r : NodePath) × (q ≡ p ++ (k + j) ∷ r) × (node_in cs j r ≡ some n)

LeadsAmong-here :
    (p : NodePath) (k : ℕ) (c : Node) (cs : Nodes) (x : Pointer)
    → LeadsFrom (p ++ k ∷ []) c x
    → LeadsAmong p k (cons c cs) x
unfolding node_at
LeadsAmong-here p k c cs (q, n) (r, e, h) =
    let same : k ≡ k + 0 = omega arith in
    (0, r, rw (e, append_assoc p (k ∷ []) r) (ap (λ j. p ++ j ∷ r) same), h)

LeadsAmong-later :
    (p : NodePath) (k : ℕ) (c : Node) (cs : Nodes) (x : Pointer)
    → LeadsAmong p (k + 1) cs x
    → LeadsAmong p k (cons c cs) x
unfolding node_at
LeadsAmong-later p k c cs (q, n) (j, r, e, h) =
    let same : k + 1 + j ≡ k + suc j = omega arith in
    (suc j, r, rw e (ap (λ i. p ++ i ∷ r) same), h)

LeadsFrom-child :
    (p : NodePath) (i : _) (cs : Nodes) (x : Pointer)
    → LeadsAmong p 0 cs x
    → LeadsFrom p (node i cs) x
unfolding node_at
LeadsFrom-child p i cs (q, n) (j, r, e, h) =
    let same : 0 + j ≡ j = omega arith in (j ∷ r, rw e (ap (λ k. p ++ k ∷ r) same), h)

mutual
  unfolding preorder node_at

  preorder-LeadsFrom : (t : Node) (p : NodePath) → All (LeadsFrom p t) (preorder p t)
  preorder-LeadsFrom (node i cs) p = (
    ([], sym (append-nil p), refl),
    All-mono (LeadsAmong p 0 cs) (LeadsFrom p (node i cs)) (preorder_in p 0 cs)
        (LeadsFrom-child p i cs) (preorder_in-LeadsAmong cs p 0),
  )

  preorder_in-LeadsAmong :
      (cs : Nodes) (p : NodePath) (k : ℕ) → All (LeadsAmong p k cs) (preorder_in p k cs)
  preorder_in-LeadsAmong nil p k = tt
  preorder_in-LeadsAmong (cons c cs) p k =
      All-append (LeadsAmong p k (cons c cs)) (preorder (p ++ k ∷ []) c) (preorder_in p (k + 1) cs)
        (All-mono (LeadsFrom (p ++ k ∷ []) c) (LeadsAmong p k (cons c cs))
          (preorder (p ++ k ∷ []) c) (LeadsAmong-here p k c cs)
          (preorder-LeadsFrom c (p ++ k ∷ [])))
        (All-mono (LeadsAmong p (k + 1) cs) (LeadsAmong p k (cons c cs)) (preorder_in p (k + 1) cs)
          (LeadsAmong-later p k c cs) (preorder_in-LeadsAmong cs p (k + 1)))

-- The search returns the first node in preorder with that name, if there is one.
pub snapshot_tree_find-preorder :
    (root : Node) (id : Bytes)
    → snapshot_tree_find (some root) (some id) ≡ first_named id (preorder [] root)
unfolding snapshot_tree_find
snapshot_tree_find-preorder root id = find_from-preorder root [] id

pub str_eq_iff : (a : Option Bytes) (id : Bytes) → (str_eq a (some id) ≡ true) ↔ (a ≡ some id)
str_eq_iff none id = ground arith
str_eq_iff (some a) id = ground (arith, strcmp_eq_iff a id)

first_named-some :
    (P : Pointer → Type 0) (id : Bytes) (xs : List Pointer) (x : Pointer)
    → All P xs
    → first_named id xs ≡ some x
    → P x × ((info x.1).id ≡ some id)
first_named-some P id [] x h e = cc
first_named-some P id ((p, n) ∷ xs) x h e = elim (Bool-cases (str_eq (info n).id (some id))) [
  | inl hit ↦
      let same : (p, n) ≡ x = some-injective (p, n) x (rw hit at e) in
      rw (← same) (h.0, (str_eq_iff (info n).id id).0 hit)
  | inr miss ↦ first_named-some P id xs x h.1 (rw miss at e)
]

first_named-none :
    (id : Bytes) (xs : List Pointer)
    → first_named id xs ≡ none
    → All (λ x. (info x.1).id ≢ some id) xs
first_named-none id [] e = tt
first_named-none id ((p, n) ∷ xs) e = elim (Bool-cases (str_eq (info n).id (some id))) [
  | inl hit ↦ cc (rw hit at e)
  | inr miss ↦
      (λ same. cc (miss, (str_eq_iff (info n).id id).1 same), first_named-none id xs (rw miss at e))
]

-- A node of the tree with the name, at its path, or nothing where no node has the name.
abbrev pub FindsIn : Node → Bytes → Option Pointer → Type 0
FindsIn root id none = All (λ x. (info x.1).id ≢ some id) (preorder [] root)
FindsIn root id (some (p, n)) = (node_at root p ≡ some n) × ((info n).id ≡ some id)

first_named-FindsIn :
    (root : Node) (id : Bytes) (r : Option Pointer)
    → first_named id (preorder [] root) ≡ r
    → FindsIn root id r
first_named-FindsIn root id none e = first_named-none id (preorder [] root) e
first_named-FindsIn root id (some (p, n)) e =
    let ((q, path, here), named) =
      first_named-some (LeadsFrom [] root) id (preorder [] root) (p, n) (preorder-LeadsFrom root [])
        e in
    (rw path here, named)

-- What the search returns is the node of the tree at the path that it followed, with the name
-- asked for; it returns nothing only if no node of the tree has the name.
pub snapshot_tree_find-FindsIn :
    (root : Node) (id : Bytes) → FindsIn root id (snapshot_tree_find (some root) (some id))
snapshot_tree_find-FindsIn root id =
    first_named-FindsIn root id _ (sym (snapshot_tree_find-preorder root id))

mutual
  unfolding preorder count_node

  count_node-length : (t : Node) (p : NodePath) → count_node t ≡ length (preorder p t)
  count_node-length (node i cs) p = omega (arith, count_in-length cs p 0)

  count_in-length : (cs : Nodes) (p : NodePath) (k : ℕ) → count_in cs ≡ length (preorder_in p k cs)
  count_in-length nil p k = refl
  count_in-length (cons c cs) p k = omega (
    arith,
    count_node-length c (p ++ k ∷ []),
    count_in-length cs p (k + 1),
    length-append (preorder (p ++ k ∷ []) c) (preorder_in p (k + 1) cs),
  )

-- The count is the number of nodes.
pub snapshot_tree_count-preorder :
    (root : Node) → snapshot_tree_count (some root) ≡ length (preorder [] root)
unfolding snapshot_tree_count
snapshot_tree_count-preorder root = count_node-length root []

abbrev pub paths : List Pointer → List NodePath
paths = map (λ x. x.0)

mutual
  unfolding preorder snapshot_tree_free

  free-perm : (t : Node) (p : NodePath) → Perm (snapshot_tree_free p t) (paths (preorder p t))
  free-perm (node i cs) p =
      Perm.trans (perm_middle (free_in p 0 cs) [])
        (rw append-nil (Perm.cons p (free_in-perm cs p 0)))

  free_in-perm :
      (cs : Nodes) (p : NodePath) (k : ℕ) → Perm (free_in p k cs) (paths (preorder_in p k cs))
  free_in-perm nil p k = Perm.nil
  free_in-perm (cons c cs) p k =
      rw map-append (Perm.append (free-perm c (p ++ k ∷ [])) (free_in-perm cs p (k + 1)))

-- Freeing a tree releases each of its nodes, and each of them once.
pub snapshot_tree_free-perm :
    (root : Node) → Perm (snapshot_tree_free [] root) (paths (preorder [] root))
snapshot_tree_free-perm root = free-perm root []
