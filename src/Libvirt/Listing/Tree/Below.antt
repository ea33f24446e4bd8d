-- ===== src/Libvirt/Listing/Tree/Below.antt =====
-- The nodes of the tree of `lv_list_snapshots`, in the order of the tree: each snapshot stands there once.
use qemu_snapshot_web_manage.Prelude.{
  ℕ, zero, suc, ◌+◌, ◌==◌, ◌<◌, ◌≤◌, ◌≡◌, ◌≢◌, false, inl, inr, refl, List, [], ◌∷◌, ◌++◌, some,
  Bool-cases, length, arith,
}
use qemu_snapshot_web_manage.Libvirt.Listing.{Links}
use qemu_snapshot_web_manage.Libvirt.Listing.Reach.{In}
use qemu_snapshot_web_manage.Libvirt.Listing.Single.{IsTree}
use qemu_snapshot_web_manage.Libvirt.Listing.Occurs.{
  occurrences, occurrences-++, occurrences-cases, occurrences-In, upto, upto-perm,
}
use mathlib.Core.List.{Perm}
use qemu_snapshot_web_manage.Libvirt.Listing.Tree.Trail.{Trail, top, down}

-- The nodes, each followed by those below it.
unfoldable pub with_below : (ℕ → List ℕ) → List ℕ → List ℕ
with_below g [] = []
with_below g (k ∷ ks) = (k ∷ g k) ++ with_below g ks

unfoldable pub under : (ℕ → List ℕ) → ℕ → ℕ → List ℕ
under kids zero i = []
under kids (suc f) i = with_below (under kids f) (kids i)

module _ (g h : ℕ → List ℕ) (x p : ℕ) where
  occurrences-with_below-le :
      ((k : ℕ) → occurrences x (g k) ≤ occurrences p (k ∷ g k))
      → (ks : List ℕ)
      → occurrences x (with_below g ks) ≤ occurrences x ks + occurrences p (with_below g ks)
  unfolding with_below occurrences
  occurrences-with_below-le each [] = omega arith
  occurrences-with_below-le each (k ∷ ks) =
      let rest = occurrences-with_below-le each ks in
      rw (occurrences-++, occurrences-++) (omega (arith, rest, each k))

  le-occurrences-with_below :
      ((k : ℕ) → occurrences p (k ∷ g k) ≤ occurrences x (h k))
      → (ks : List ℕ)
      → occurrences x ks + occurrences p (with_below g ks) ≤ occurrences x (with_below h ks)
  unfolding with_below occurrences
  le-occurrences-with_below each [] = omega arith
  le-occurrences-with_below each (k ∷ ks) =
      let rest = le-occurrences-with_below each ks in
      rw (occurrences-++, occurrences-++) (omega (arith, rest, each k))

  kids-le-with_below : (ks : List ℕ) → occurrences x ks ≤ occurrences x (with_below h ks)
  unfolding with_below occurrences
  kids-le-with_below [] = omega arith
  kids-le-with_below (k ∷ ks) = rw occurrences-++ (omega (arith, kids-le-with_below ks))

module _ (kids : ℕ → List ℕ) (x : ℕ) (absent : (k : ℕ) → occurrences x (kids k) ≡ 0) where
  absent-with_below :
      (g : ℕ → List ℕ) (ks : List ℕ)
      → ((k : ℕ) → occurrences x (g k) ≡ 0)
      → occurrences x ks ≡ 0
      → occurrences x (with_below g ks) ≡ 0
  unfolding with_below occurrences
  absent-with_below g [] each h = refl
  absent-with_below g (k ∷ ks) each h =
      let rest = absent-with_below g ks each (omega (arith, h)) in
      rw occurrences-++ (omega (arith, rest, each k, h))

  -- What hangs from no node is below none.
  absent-under : (f i : ℕ) → occurrences x (under kids f i) ≡ 0
  unfolding under occurrences
  absent-under zero i = refl
  absent-under (suc f) i = absent-with_below (under kids f) (kids i) (absent-under f) (absent i)

module _ (n : ℕ) (l : Links) (tree : IsTree n l) where
  module _ (p x : ℕ) (hangs : In x (l.kids p)) where
    kids-le : (i : ℕ) → occurrences x (l.kids i) ≤ occurrences p (i ∷ [])
    unfolding occurrences
    kids-le i = elim (occurrences-cases x (l.kids i)) [
      | inl at_i ↦
          let same : p ≡ i = tree.single p i x hangs at_i in ground (arith, same, tree.once i x)
      | inr none ↦ omega (arith, none)
    ]

    le-kids : (i : ℕ) → occurrences p (i ∷ []) ≤ occurrences x (l.kids i)
    unfolding occurrences
    le-kids i = elim (Bool-cases (p == i)) [
      | inl same ↦
          let e : p ≡ i = ground arith in
          let stands = occurrences-In x (l.kids i) (rw e at hangs) in
          rw same (omega (arith, stands))
      | inr other ↦ rw other (omega arith)
    ]

    -- A node stands below another one as often as what it hangs from stands there or is that one.
    occurrences-under-le :
        (f i : ℕ) → occurrences x (under l.kids f i) ≤ occurrences p (i ∷ under l.kids f i)
    unfolding under occurrences
    occurrences-under-le zero i = omega arith
    occurrences-under-le (suc f) i = omega (
      arith,
      kids-le i,
      occurrences-with_below-le (under l.kids f) (under l.kids f) x p (occurrences-under-le f)
          (l.kids i),
    )

    le-occurrences-under :
        (f i : ℕ) → occurrences p (i ∷ under l.kids f i) ≤ occurrences x (under l.kids (suc f) i)
    unfolding under occurrences
    le-occurrences-under zero i = omega (
      arith,
      le-kids i,
      kids-le-with_below (under l.kids zero) (under l.kids zero) x p (l.kids i),
    )
    le-occurrences-under (suc f) i = omega (
      arith,
      le-kids i,
      le-occurrences-with_below (under l.kids f) (under l.kids (suc f)) x p (le-occurrences-under f)
          (l.kids i),
    )

  module _ (r : ℕ) (rooted : l.root ≡ some r) where
    no_parent : (k : ℕ) → occurrences r (l.kids k) ≡ 0
    no_parent k = elim (occurrences-cases r (l.kids k)) [
      | inl at_k ↦ absurd ((tree.topmost r rooted).1 k at_k)
      | inr none ↦ none
    ]

    at_most_once :
        {x : ℕ} {up : List ℕ} (f : ℕ)
        → Trail l.kids r x up
        → occurrences x (r ∷ under l.kids f r) ≤ 1
    unfolding occurrences
    at_most_once f top = rw (absent-under l.kids r no_parent f r) (ground arith)
    at_most_once f (down {i = p} {k = x} t h) =
        let ne : x ≢ r = λ e. (tree.topmost r rooted).1 p (rw e at h) in
        let differs : (x == r) ≡ false = ground (arith, ne) in
        rw differs (omega (arith, occurrences-under-le p x h f r, at_most_once f t))

    at_least_once :
        {x : ℕ} {up : List ℕ} (f : ℕ)
        → Trail l.kids r x up
        → length up ≤ suc f
        → 1 ≤ occurrences x (r ∷ under l.kids f r)
    unfolding occurrences
    at_least_once f top h = ground arith
    at_least_once zero (down top g) h = absurd (omega (arith, h))
    at_least_once zero (down (down t k) g) h = absurd (omega (arith, h))
    at_least_once (suc f) (down {i = p} {k = x} t g) h =
        omega (arith, le-occurrences-under p x g f r, at_least_once f t (omega (arith, h)))

    unlisted : (x k : ℕ) → n ≤ x → occurrences x (l.kids k) ≡ 0
    unlisted x k h = elim (occurrences-cases x (l.kids k)) [
      | inl at_k ↦ absurd (omega (arith, h, tree.linked k x at_k))
      | inr none ↦ none
    ]

    -- Where each snapshot is reached, each stands in the tree once.
    pub under-perm :
        (f : ℕ)
        → ((x : ℕ) → x < n → (up : List ℕ) × Trail l.kids r x up × (length up ≤ suc f))
        → Perm (r ∷ under l.kids f r) (upto 0 n)
    unfolding occurrences
    under-perm f reached =
        upto-perm 0 n (r ∷ under l.kids f r)
          (λ x low h.
            let (up, t, short) = reached x (omega (arith, h)) in
            omega (arith, at_most_once f t, at_least_once f t short))
          (λ x low. absurd (omega (arith, low)))
          (λ x h.
            let below : r < n = (tree.topmost r rooted).0 in
            let differs : (x == r) ≡ false = ground (arith, below, h) in
            let hangs : (k : ℕ) → occurrences x (l.kids k) ≡ 0 =
              λ k. unlisted x k (omega (arith, h)) in
            rw (differs, absent-under l.kids x hangs f r) (omega arith))
