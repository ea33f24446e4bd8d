-- ===== src/Tests/Snapshot.antt =====
-- The tree of src/snapshot.c on concrete trees.
use qemu_snapshot_web_manage.Prelude.{
  ◌≡◌, ◌<◌, ◌&&◌, ltb, All, refl, arith, Bool, true, false, some, none, [], ◌∷◌, Bytes, codes,
  strcmp_eq,
}
use qemu_snapshot_web_manage.Json.{Json}
use qemu_snapshot_web_manage.Snapshot.{
  Node, info, NodePath, internal, snapshot_node_new, snapshot_node_add_child, snapshot_tree_find,
  snapshot_tree_count, count_node, snapshot_tree_free, locate_current, state_node,
  snapshot_tree_add_current_state,
}
use qemu_snapshot_web_manage.Snapshot.Search.{preorder, node_at, paths, snapshot_tree_free-perm}
use qemu_snapshot_web_manage.Snapshot.Attach.{Shows, add_current_state-Shows}
use qemu_snapshot_web_manage.Snapshot.Export.{
  Draws, snapshot_tree_to_json, snapshot_tree_to_json-Draws,
}
use mathlib.Core.List.{Perm}

abbrev leaf : Bytes → Bool → Node
leaf id is_current = snapshot_node_new (some id) none none internal is_current

abbrev first : Node
first = leaf (codes "first") false

abbrev second : Node
second = leaf (codes "second") true

-- `first` with the child `second`, which is the current snapshot.
abbrev two : Node
two = snapshot_node_add_child first second

abbrev stale : Node
stale = snapshot_node_add_child first (leaf (codes "third") false)

find_test : snapshot_tree_find (some two) (some (codes "second")) ≡ some (0 ∷ [], second)
unfolding snapshot_tree_find snapshot_node_new snapshot_node_add_child strcmp_eq
find_test = refl

count_test : snapshot_tree_count (some two) ≡ 2
unfolding snapshot_tree_count snapshot_node_new snapshot_node_add_child
count_test = refl

free_test : snapshot_tree_free [] two ≡ (0 ∷ []) ∷ [] ∷ []
unfolding snapshot_tree_free snapshot_node_new snapshot_node_add_child
free_test = refl

locate_test : locate_current two ≡ some (0 ∷ [], second)
unfolding locate_current snapshot_node_new snapshot_node_add_child count_node
locate_test = refl

second_stands : node_at two (0 ∷ []) ≡ some second
unfolding node_at snapshot_node_add_child snapshot_node_new
second_stands = refl

second_is_current : (info second).is_current ≡ true
unfolding snapshot_node_new
second_is_current = refl

snapshot_tree_free-perm_example : Perm (snapshot_tree_free [] two) (paths (preorder [] two))
snapshot_tree_free-perm_example = snapshot_tree_free-perm two

add_current_state-Shows_example :
    Shows two
      (state_node (codes "running") true)
      (snapshot_tree_add_current_state (some two) (codes "running") true)
add_current_state-Shows_example =
    add_current_state-Shows two second (0 ∷ []) (codes "running") true (omega (arith, count_test))
      second_stands second_is_current

none_current : (q : NodePath) (n : Node) → node_at first q ≡ some n → (info n).is_current ≡ false
unfolding node_at snapshot_node_new
none_current [] n e = ground (arith, e)
none_current (k ∷ q) n e = cc

-- Texts without a byte of 128 or more.
abbrev is_ascii : Bytes → Bool
is_ascii [] = true
is_ascii (c ∷ s) = ltb c 128 && is_ascii s

is_ascii-All : (s : Bytes) → All (λ c. c < 128) s → is_ascii s ≡ true
is_ascii-All [] h = refl
is_ascii-All (c ∷ s) h = let rest = is_ascii-All s h.1 in ground (arith, rest, h.0)

snapshot_tree_to_json-Draws_example :
    (j : Json) × (snapshot_tree_to_json (λ j. codes "{}") is_ascii (some two) ≡ some (codes "{}"))
    × Draws is_ascii j two
snapshot_tree_to_json-Draws_example =
    snapshot_tree_to_json-Draws (λ j. codes "{}") is_ascii two is_ascii-All
