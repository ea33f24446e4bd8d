-- ===== src/Libvirt/Listing/Tree/Whole.antt =====
-- The tree that `lv_list_snapshots` of src/libvirt_backend.c hands out is whole.
use qemu_snapshot_web_manage.Prelude.{
  ℕ, zero, suc, ◌+◌, ◌<◌, ◌≤◌, ◌≡◌, ◌==◌, Bool-cases, inl, inr, refl, sym, ap, ap₂, ◌∙◌, List, [],
  ◌∷◌, ◌++◌, append-nil, append_assoc, map, Option, none, some, Bytes, length, get_elem?, arith,
}
use mathlib.Core.List.{Perm, map-append}
use mathlib.Core.List.Perm
use mathlib.Core.Option.{some-injective}
use qemu_snapshot_web_manage.Snapshot.{
  Node, Nodes, node, nil, cons, info, child_count, append_child, snapshot_node_add_child,
  snapshot_node_new,
}
use qemu_snapshot_web_manage.Libvirt.Listing.{
  Listed, node_of, parent_index, lv_list_snapshots, link_from,
}
use qemu_snapshot_web_manage.Libvirt.Listing.Reach.{Below, top, child, lv_list_snapshots-IsReached}
use qemu_snapshot_web_manage.Libvirt.Listing.Single.{lv_list_snapshots-IsTree}
use qemu_snapshot_web_manage.Libvirt.Listing.Occurs.{upto}
use qemu_snapshot_web_manage.Libvirt.Listing.Tree.{add_children, tree_at, node_at, tree_of}
use qemu_snapshot_web_manage.Libvirt.Listing.Tree.Trail.{Trail, top, down, length-Trail-le}
use qemu_snapshot_web_manage.Libvirt.Listing.Tree.Below.{with_below, under, under-perm}

-- The ids of the nodes of a tree, from its root down.
unfoldable mutual
  pub ids_of : Node → List (Option Bytes)
  ids_of (node i cs) = i.id ∷ ids_in cs

  pub ids_in : Nodes → List (Option Bytes)
  ids_in nil = []
  ids_in (cons c cs) = ids_of c ++ ids_in cs

unfoldable pub tree_ids : Option Node → List (Option Bytes)
unfolding ids_of
tree_ids none = []
tree_ids (some root) = ids_of root

ids_in-append_child : (cs : Nodes) (c : Node) → ids_in (append_child cs c) ≡ ids_in cs ++ ids_of c
unfolding ids_of append_child
ids_in-append_child nil c = append-nil (ids_of c)
ids_in-append_child (cons d cs) c =
    rw (ids_in-append_child cs c) (sym (append_assoc (ids_of d) (ids_in cs) (ids_of c)))

ids_of-add_child : (p c : Node) → ids_of (snapshot_node_add_child p c) ≡ ids_of p ++ ids_of c
unfolding ids_of snapshot_node_add_child
ids_of-add_child (node i cs) c = elim (Bool-cases (child_count cs == i.child_capacity)) [
  | inl full ↦ rw (full, ids_in-append_child) refl
  | inr room ↦ rw (room, ids_in-append_child) refl
]

module _ (nodes : ℕ → Node) (ids : ℕ → Option Bytes)
    (bare : (i : ℕ) → ids_of (nodes i) ≡ ids i ∷ []) (kids : ℕ → List ℕ) where
  ids_of-add_children :
      (f : ℕ) (p : Node) (ks : List ℕ)
      → ((k : ℕ) → ids_of (tree_at nodes kids f k) ≡ map ids (k ∷ under kids f k))
      → ids_of (add_children p (map (tree_at nodes kids f) ks))
        ≡ ids_of p ++ map ids (with_below (under kids f) ks)
  unfolding add_children with_below
  ids_of-add_children f p [] each = sym (append-nil (ids_of p))
  ids_of-add_children f p (k ∷ ks) each =
      rw
        (
          ids_of-add_children f (snapshot_node_add_child p (tree_at nodes kids f k)) ks each,
          ids_of-add_child,
          each k,
          map-append,
        )
        (append_assoc (ids_of p) (map ids (k ∷ under kids f k))
          (map ids (with_below (under kids f) ks)))

  -- The tree has the nodes that its links lead to, in the order of the tree.
  ids_of-tree_at : (f i : ℕ) → ids_of (tree_at nodes kids f i) ≡ map ids (i ∷ under kids f i)
  unfolding tree_at under
  ids_of-tree_at zero i = bare i
  ids_of-tree_at (suc f) i =
      rw (ids_of-add_children f (nodes i) (kids i) (ids_of-tree_at f), bare) refl

module _ {B : Type 0} where
  map-upto : (F : ℕ → B) (j n : ℕ) → map F (upto (j + 1) n) ≡ map (λ i. F (suc i)) (upto j n)
  unfolding upto
  map-upto F j zero = refl
  map-upto F j (suc n) = let e : j + 1 ≡ suc j = omega arith in rw (map-upto F (j + 1) n, e) refl

  map-get_elem? :
      {A : Type 0} (F : ℕ → B) (g : A → B) (xs : List A)
      → ((i : ℕ) (x : A) → get_elem? xs i ≡ some x → F i ≡ g x)
      → map F (upto 0 (length xs)) ≡ map g xs
  unfolding upto
  map-get_elem? F g [] each = refl
  map-get_elem? F g (x ∷ xs) each =
      let rest = map-get_elem? (λ i. F (suc i)) g xs (λ i y e. each (suc i) y e) in
      ap₂ ◌∷◌ (each 0 x refl) (map-upto F 0 (length xs) ∙ rest)

get_elem?-length :
    {A : Type 0} (xs : List A) (i : ℕ) → i < length xs → (x : A) × (get_elem? xs i ≡ some x)
get_elem?-length [] i h = absurd (omega (arith, h))
get_elem?-length (x ∷ xs) zero h = (x, refl)
get_elem?-length (x ∷ xs) (suc i) h = get_elem?-length xs i (omega (arith, h))

trail : {kids : ℕ → List ℕ} {r i : ℕ} → Below kids r i → (up : List ℕ) × Trail kids r i up
trail {r} top = (r ∷ [], top)
trail {i} (child b h) = let (up, t) = trail b in (i ∷ up, down t h)

module _ (iso : Bytes → Bytes) (current_name : Option Bytes) where
  abbrev id_at : List Listed → ℕ → Option Bytes
  id_at snaps i = (info (node_at iso current_name snaps i)).id

  ids_of-node_at :
      (snaps : List Listed) (i : ℕ) → ids_of (node_at iso current_name snaps i) ≡ id_at snaps i ∷ []
  unfolding ids_of snapshot_node_new node_of
  ids_of-node_at [] i = refl
  ids_of-node_at (s ∷ snaps) zero = refl
  ids_of-node_at (s ∷ snaps) (suc i) = ids_of-node_at snaps i

  id_at-name :
      (snaps : List Listed) (i : ℕ) (s : Listed)
      → get_elem? snaps i ≡ some s
      → id_at snaps i ≡ some s.name
  unfolding snapshot_node_new node_of
  id_at-name [] i s e = cc
  id_at-name (t ∷ snaps) zero s e =
      let same : t ≡ s = some-injective t s e in ap (λ (u : Listed). some u.name) same
  id_at-name (t ∷ snaps) (suc i) s e = id_at-name snaps i s e

no_snapshots :
    (iso : Bytes → Bytes) (current_name : Option Bytes) → tree_of iso current_name [] ≡ none
unfolding tree_of lv_list_snapshots link_from
no_snapshots iso current_name = refl

module _ (snaps : List Listed) (rank : ℕ → ℕ)
    (falls : (i j : ℕ) (s : Listed)
      → get_elem? snaps i ≡ some s
      → parent_index snaps i s ≡ some j
      → rank j < rank i)
    (r : ℕ) (rooted : (lv_list_snapshots snaps).root ≡ some r) where
  reached-Trail :
      (x : ℕ)
      → x < length snaps
      → (up : List ℕ) × Trail (lv_list_snapshots snaps).kids r x up
        × (length up ≤ suc (length snaps))
  reached-Trail x h =
      let (s, e) = get_elem?-length snaps x h in
      let (r', rooted', below) = lv_list_snapshots-IsReached snaps rank x s falls e in
      let same : r' ≡ r = some-injective r' r (sym rooted' ∙ rooted) in
      let (up, t) = trail (rw same at below) in
      let short =
        length-Trail-le (length snaps) (lv_list_snapshots snaps) (lv_list_snapshots-IsTree snaps) r
          rooted t in
      (up, t, omega (arith, short))

  rooted-perm :
      (iso : Bytes → Bytes) (current_name : Option Bytes)
      → Perm (tree_ids (tree_of iso current_name snaps)) (map (λ s. some s.name) snaps)
  unfolding tree_ids tree_of
  rooted-perm iso current_name =
      let l = lv_list_snapshots snaps in
      let n = length snaps in
      let in_order =
        ids_of-tree_at (node_at iso current_name snaps) (id_at iso current_name snaps)
          (ids_of-node_at iso current_name snaps) l.kids n r in
      let listed =
        map-get_elem? (id_at iso current_name snaps) (λ (s : Listed). some s.name) snaps
          (id_at-name iso current_name snaps) in
      rw (rooted, in_order, ← listed)
        (Perm.map (id_at iso current_name snaps)
          (under-perm n l (lv_list_snapshots-IsTree snaps) r rooted n reached-Trail))

-- If no snapshot is its own ancestor, which a rank that falls from each snapshot to its parent
-- shows, then the nodes of the tree that is handed out have the names of the listed snapshots, each
-- as often as libvirt lists it: no snapshot is lost, and none stands twice.
pub tree_of-perm :
    (iso : Bytes → Bytes) (current_name : Option Bytes) (snaps : List Listed) (rank : ℕ → ℕ)
    → ((i j : ℕ) (s : Listed)
        → get_elem? snaps i ≡ some s
        → parent_index snaps i s ≡ some j
        → rank j < rank i)
    → Perm (tree_ids (tree_of iso current_name snaps)) (map (λ s. some s.name) snaps)
unfolding tree_ids
tree_of-perm iso current_name [] rank falls = rw no_snapshots Perm.nil
tree_of-perm iso current_name (s ∷ rest) rank falls =
    let (r, rooted, below) = lv_list_snapshots-IsReached (s ∷ rest) rank 0 s falls refl in
    rooted-perm (s ∷ rest) rank falls r rooted iso current_name
