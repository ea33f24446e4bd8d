-- ===== src/Libvirt/Listing/Single.antt =====
-- The links of `lv_list_snapshots` are those of a tree: no snapshot hangs from two places.
use qemu_snapshot_web_manage.Prelude.{
  ℕ, suc, ◌+◌, ◌<◌, ◌≤◌, false, ◌≡◌, ◌⊎◌, refl, sym, ◌∙◌, inl, inr, Option, none, some, List, [],
  ◌∷◌, ◌++◌, ◌==◌, arith, length, Bool-cases,
}
use qemu_snapshot_web_manage.Libvirt.Listing.{
  Listed, Links, add_kid, parent_index, attach_rootless, attach, link_from, lv_list_snapshots,
}
use qemu_snapshot_web_manage.Libvirt.Listing.Reach.{In, here, there}
use qemu_snapshot_web_manage.Libvirt.Listing.Occurs.{occurrences, occurrences-++, occurrences-cases}
use mathlib.Core.Option.{some-injective}

In-split : (x i : ℕ) (l : List ℕ) → In x (l ++ i ∷ []) → In x l ⊎ (x ≡ i)
In-split x i [] here = inr refl
In-split x i [] (there h) = elim h [ ]
In-split x i (k ∷ l) here = inl here
In-split x i (k ∷ l) (there h) = elim (In-split x i l h) [
  | inl old ↦ inl (there old)
  | inr new ↦ inr new
]

add_kid-split :
    (kids : ℕ → List ℕ) (j i k x : ℕ)
    → In x (add_kid kids j i k)
    → In x (kids k) ⊎ ((x ≡ i) × (k ≡ j))
add_kid-split kids j i k x h = elim (Bool-cases (k == j)) [
  | inl same ↦ elim (In-split x i (kids k) (rw same at h)) [
    | inl old ↦ inl old
    | inr new ↦ let at : k ≡ j = ground arith in inr (new, at)
  ]
  | inr other ↦ inl (rw other at h)
]

-- The links of the first `n` snapshots: only these are linked, each hangs from one place at most, and
-- once, and the root from none.
pub record IsTree (n : ℕ) (l : Links) : Type 0 where
  pub linked : (k x : ℕ) → In x (l.kids k) → x < n
  pub single : (j k x : ℕ) → In x (l.kids j) → In x (l.kids k) → j ≡ k
  pub once : (k x : ℕ) → occurrences x (l.kids k) ≤ 1
  pub topmost : (r : ℕ) → l.root ≡ some r → (r < n) × ((k : ℕ) → ¬ In r (l.kids k))

from_splits :
    (l : Links) (j i a b x : ℕ)
    → IsTree i l
    → In x (l.kids a) ⊎ ((x ≡ i) × (a ≡ j))
    → In x (l.kids b) ⊎ ((x ≡ i) × (b ≡ j))
    → a ≡ b
from_splits l j i a b x t (inl old) (inl old') = t.single a b x old old'
from_splits l j i a b x t (inl old) (inr (new, at)) = absurd (omega (arith, t.linked a x old, new))
from_splits l j i a b x t (inr (new, at)) (inl old) = absurd (omega (arith, t.linked b x old, new))
from_splits l j i a b x t (inr (new, at)) (inr (new', at')) = at ∙ sym at'

-- What is not yet linked is added once.
occurrences-add_kid :
    (l : Links) (j i k x : ℕ) → IsTree i l → occurrences x (add_kid l.kids j i k) ≤ 1
unfolding occurrences
occurrences-add_kid l j i k x t = elim (Bool-cases (k == j)) [
  | inl same ↦ elim (occurrences-cases x (l.kids k)) [
    | inl old ↦
        let new : (x == i) ≡ false = ground (arith, t.linked k x old) in
        rw (same, occurrences-++, new) (omega (arith, t.once k x))
    | inr absent ↦ rw (same, occurrences-++, absent) (ground arith)
  ]
  | inr other ↦ rw other (t.once k x)
]

add_kid-IsTree :
    (l : Links) (j i : ℕ) → IsTree i l → IsTree (i + 1) (record l { kids = add_kid l.kids j i })
add_kid-IsTree l j i t = record {
  linked = λ k x h. elim (add_kid-split l.kids j i k x h) [
    | inl old ↦ omega (arith, t.linked k x old)
    | inr (new, at) ↦ omega (arith, new)
  ];
  single = λ a b x h k.
      from_splits l j i a b x t (add_kid-split l.kids j i a x h) (add_kid-split l.kids j i b x k);
  once = λ k x. occurrences-add_kid l j i k x t;
  topmost = λ r e. (
    omega (arith, (t.topmost r e).0),
    (λ k h. elim (add_kid-split l.kids j i k r h) [
      | inl old ↦ (t.topmost r e).1 k old
      | inr (new, at) ↦ omega (arith, (t.topmost r e).0, new)
    ]),
  );
}

attach_rootless-IsTree :
    (i : ℕ) (l : Links) (root : Option ℕ)
    → l.root ≡ root
    → IsTree i l
    → IsTree (i + 1) (attach_rootless i l root)
unfolding attach_rootless
attach_rootless-IsTree i l none e t = record {
  linked = λ k x h. omega (arith, t.linked k x h);
  single = λ a b x h k. t.single a b x h k;
  once = λ k x. t.once k x;
  topmost = λ r q.
      let same : i ≡ r = some-injective i r q in
      (omega (arith, same), (λ k h. omega (arith, t.linked k r h, same)));
}
attach_rootless-IsTree i l (some r) e t = add_kid-IsTree l r i t

attach-IsTree : (i : ℕ) (l : Links) (p : Option ℕ) → IsTree i l → IsTree (i + 1) (attach i l p)
unfolding attach
attach-IsTree i l none t = attach_rootless-IsTree i l l.root refl t
attach-IsTree i l (some j) t = add_kid-IsTree l j i t

link_from-IsTree :
    (snaps : List Listed) (i : ℕ) (rest : List Listed) (l : Links)
    → IsTree i l
    → IsTree (i + length rest) (link_from snaps i rest l)
unfolding link_from
link_from-IsTree snaps i [] l t = let same : i + 0 ≡ i = omega arith in rw same t
link_from-IsTree snaps i (s ∷ rest) l t =
    let shift : i + 1 + length rest ≡ i + suc (length rest) = omega arith in
    rw (← shift) (
      link_from-IsTree snaps (i + 1) rest (attach i l (parent_index snaps i s))
        (attach-IsTree i l (parent_index snaps i s) t))

-- Whatever libvirt lists, with cycles among the parents or not: only the listed snapshots are linked,
-- each hangs from one snapshot at most, and once, and the root from none.
pub lv_list_snapshots-IsTree :
    (snaps : List Listed) → IsTree (length snaps) (lv_list_snapshots snaps)
unfolding lv_list_snapshots occurrences
lv_list_snapshots-IsTree snaps =
    let start : IsTree 0 (record { kids = λ k. []; root = none }) = record {
      linked = λ k x h. elim h [ ];
      single = λ a b x h k. elim h [ ];
      once = λ k x. omega arith;
      topmost = λ r e. cc;
    } in
    let same : 0 + length snaps ≡ length snaps = omega arith in
    rw same at (link_from-IsTree snaps 0 snaps (record { kids = λ k. []; root = none }) start)
