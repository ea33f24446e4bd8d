-- ===== src/Libvirt/Listing/Tree/Trail.antt =====
-- No way down the tree of `lv_list_snapshots` is longer than there are snapshots.
use qemu_snapshot_web_manage.Prelude.{
  ℕ, zero, suc, ◌+◌, ◌==◌, ◌<◌, ◌≤◌, ◌≡◌, ◌≢◌, inl, inr, refl, sym, ap, ap₂, ◌∙◌, List, [], ◌∷◌,
  map, some, Bool-cases, length, arith, if◌then◌else◌, All,
}
use qemu_snapshot_web_manage.Snapshot.{Node}
use qemu_snapshot_web_manage.Libvirt.Listing.{Listed, Links, lv_list_snapshots}
use qemu_snapshot_web_manage.Libvirt.Listing.Reach.{In, here, there}
use qemu_snapshot_web_manage.Libvirt.Listing.Single.{IsTree, lv_list_snapshots-IsTree}
use qemu_snapshot_web_manage.Libvirt.Listing.Tree.{add_children, tree_at}

-- The way from a node up to the root.
pub data Trail (kids : ℕ → List ℕ) (r : ℕ) : ℕ → List ℕ → Type 0 where
  top : Trail kids r r (r ∷ [])
  down : {i k : ℕ} {up : List ℕ} → Trail kids r i up → In k (kids i) → Trail kids r k (k ∷ up)

abbrev Free : ℕ → List ℕ → Type 0
Free x [] = Unit
Free x (y ∷ ys) = (x ≢ y) × Free x ys

abbrev Distinct : List ℕ → Type 0
Distinct [] = Unit
Distinct (x ∷ xs) = Free x xs × Distinct xs

abbrev IsBelow : ℕ → ℕ → Type 0
IsBelow n x = x < n

remove : ℕ → List ℕ → List ℕ
remove n [] = []
remove n (x ∷ xs) = let rest = remove n xs in if x == n then rest else x ∷ rest

remove-Free : (n : ℕ) (xs : List ℕ) → Free n xs → remove n xs ≡ xs
unfolding remove
remove-Free n [] h = refl
remove-Free n (x ∷ xs) h = elim (Bool-cases (x == n)) [
  | inl same ↦ let e : n ≡ x = ground arith in absurd (h.0 e)
  | inr other ↦ rw (other, remove) (ap (λ (r : List ℕ). x ∷ r) (remove-Free n xs h.1))
]

Free-remove : (n x : ℕ) (xs : List ℕ) → Free x xs → Free x (remove n xs)
unfolding remove
Free-remove n x [] h = tt
Free-remove n x (y ∷ xs) h = elim (Bool-cases (y == n)) [
  | inl same ↦ rw (same, remove) (Free-remove n x xs h.1)
  | inr other ↦ rw (other, remove) (h.0, Free-remove n x xs h.1)
]

Distinct-remove : (n : ℕ) (xs : List ℕ) → Distinct xs → Distinct (remove n xs)
unfolding remove
Distinct-remove n [] h = tt
Distinct-remove n (y ∷ xs) h = elim (Bool-cases (y == n)) [
  | inl same ↦ rw (same, remove) (Distinct-remove n xs h.1)
  | inr other ↦ rw (other, remove) (Free-remove n y xs h.0, Distinct-remove n xs h.1)
]

All-remove : (n : ℕ) (xs : List ℕ) → All (IsBelow (suc n)) xs → All (IsBelow n) (remove n xs)
unfolding remove
All-remove n [] h = tt
All-remove n (y ∷ xs) h = elim (Bool-cases (y == n)) [
  | inl same ↦ rw (same, remove) (All-remove n xs h.1)
  | inr other ↦
      let below : y < n = ground (arith, h.0) in rw (other, remove) (below, All-remove n xs h.1)
]

length-remove : (n : ℕ) (xs : List ℕ) → Distinct xs → length xs ≤ suc (length (remove n xs))
unfolding remove
length-remove n [] h = omega arith
length-remove n (y ∷ xs) h = elim (Bool-cases (y == n)) [
  | inl same ↦
      let e : y ≡ n = ground arith in
      let free : Free n xs = rw e at (h.0) in rw (same, remove, remove-Free n xs free) (omega arith)
  | inr other ↦ let rest = length-remove n xs h.1 in rw (other, remove) (omega (arith, rest))
]

-- Distinct numbers below `n` are at most `n`.
length-Distinct-le : (n : ℕ) (xs : List ℕ) → All (IsBelow n) xs → Distinct xs → length xs ≤ n
length-Distinct-le zero [] below h = omega arith
length-Distinct-le zero (x ∷ xs) below h = absurd (omega (arith, below.0))
length-Distinct-le (suc n) xs below h =
    let rest =
      length-Distinct-le n (remove n xs) (All-remove n xs below) (Distinct-remove n xs h) in
    omega (arith, rest, length-remove n xs h)

abbrev tail : List ℕ → List ℕ
tail [] = []
tail (x ∷ xs) = xs

module _ (n : ℕ) (l : Links) (tree : IsTree n l) (r : ℕ) (rooted : l.root ≡ some r) where
  head-ne : {p : ℕ} {up : List ℕ} (i : ℕ) → Trail l.kids r p up → Free i up → i ≢ p
  head-ne i top h = h.0
  head-ne i (down t k) h = h.0

  Free-tail : (i : ℕ) (up : List ℕ) → Free i up → Free i (tail up)
  Free-tail i [] h = tt
  Free-tail i (x ∷ up) h = h.1

  -- The children of a node are not on the way up from it.
  Free-child :
      {j : ℕ} {up : List ℕ} (i k : ℕ)
      → Trail l.kids r j up
      → In k (l.kids i)
      → Free i (tail up)
      → Free k up
  Free-child i k top h free = (λ e. (tree.topmost r rooted).1 i (rw e at h), tt)
  Free-child i k (down {i = p} {up} t g) h free = (
    λ e. head-ne i t free (tree.single i p k h (rw (← e) at g)),
    Free-child i k t h (Free-tail i up free),
  )

  own-Free : {i : ℕ} {up : List ℕ} → Trail l.kids r i up → Distinct up → Free i (tail up)
  own-Free top h = h.0
  own-Free (down t g) h = h.0

  Trail-Distinct : {i : ℕ} {up : List ℕ} → Trail l.kids r i up → Distinct up
  Trail-Distinct top = (tt, tt)
  Trail-Distinct (down {i} {k} t g) =
      let rest = Trail-Distinct t in (Free-child i k t g (own-Free t rest), rest)

  Trail-All : {i : ℕ} {up : List ℕ} → Trail l.kids r i up → All (IsBelow n) up
  Trail-All top = ((tree.topmost r rooted).0, tt)
  Trail-All (down {i} {k} t g) = (tree.linked i k g, Trail-All t)

  pub length-Trail-le : {i : ℕ} {up : List ℕ} → Trail l.kids r i up → length up ≤ n
  length-Trail-le {up} t = length-Distinct-le n up (Trail-All t) (Trail-Distinct t)

  -- Where the way up is as long as it can be, the node has no children.
  childless :
      {i : ℕ} {up : List ℕ} (ks : List ℕ)
      → Trail l.kids r i up
      → l.kids i ≡ ks
      → n ≤ length up
      → ks ≡ []
  childless [] t e h = refl
  childless {i} (k ∷ ks) t e h =
      let first : In k (l.kids i) = rw e here in
      let longer = length-Trail-le (down t first) in absurd (omega (arith, longer, h))

  module _ (nodes : ℕ → Node) where
    abbrev at : ℕ → ℕ → Node
    at f i = tree_at nodes l.kids f i

    bare : (f i : ℕ) → l.kids i ≡ [] → at f i ≡ nodes i
    unfolding tree_at add_children
    bare zero i e = refl
    bare (suc f) i e = rw e refl

    map-kids :
        (f g : ℕ) (ks : List ℕ)
        → ((k : ℕ) → In k ks → at f k ≡ at g k)
        → map (at f) ks ≡ map (at g) ks
    map-kids f g [] h = refl
    map-kids f g (k ∷ ks) h = ap₂ ◌∷◌ (h k here) (map-kids f g ks (λ x m. h x (there m)))

    -- With fuel for the rest of a way down, more fuel gives the same.
    tree_at-fuel :
        (f g i : ℕ) (up : List ℕ)
        → Trail l.kids r i up
        → n ≤ f + length up
        → n ≤ g + length up
        → at f i ≡ at g i
    unfolding tree_at
    tree_at-fuel zero g i up t h k =
        let none_left = childless (l.kids i) t refl (omega (arith, h)) in
        bare zero i none_left ∙ sym (bare g i none_left)
    tree_at-fuel (suc f) zero i up t h k =
        let none_left = childless (l.kids i) t refl (omega (arith, k)) in
        bare (suc f) i none_left ∙ sym (bare zero i none_left)
    tree_at-fuel (suc f) (suc g) i up t h k = ap (add_children (nodes i)) (
        map-kids f g (l.kids i)
          (λ c m. tree_at-fuel f g c (c ∷ up) (down t m) (omega (arith, h)) (omega (arith, k))))

-- For any snapshots that libvirt lists, with cycles among their parents or not, and any nodes: the
-- tree under the root that is built with fuel for as many levels as there are snapshots is the one
-- that any more fuel gives.
pub tree_of-fuel :
    (snaps : List Listed) (nodes : ℕ → Node) (root f : ℕ)
    → (lv_list_snapshots snaps).root ≡ some root
    → length snaps ≤ f
    → tree_at nodes (lv_list_snapshots snaps).kids f root
      ≡ tree_at nodes (lv_list_snapshots snaps).kids (length snaps) root
tree_of-fuel snaps nodes root f rooted h =
    tree_at-fuel (length snaps) (lv_list_snapshots snaps) (lv_list_snapshots-IsTree snaps) root
      rooted nodes f (length snaps) root (root ∷ []) top (omega (arith, h)) (omega arith)
