-- ===== src/Libvirt/Listing/Reach.antt =====
-- The tree that `lv_list_snapshots` builds: no snapshot is lost.
use qemu_snapshot_web_manage.Prelude.{
  ℕ, zero, suc, ◌+◌, ◌<◌, ◌≡◌, refl, ◌⊎◌, inl, inr, true, Option, none, some, List, [], ◌∷◌, ◌++◌,
  ◌==◌, arith, get_elem?, Bytes, not, ◌&&◌, strcmp_eq, Option-cases, Bool-cases,
}
use qemu_snapshot_web_manage.Libvirt.Xml.{extract_snapshot_parent_name}
use mathlib.Core.Option.{some-injective}
use qemu_snapshot_web_manage.Libvirt.Listing.{
  Listed, Links, add_kid, find_parent, parent_index, attach_rootless, attach, link_from,
  lv_list_snapshots,
}

-- The number stands in the list.
pub data In (i : ℕ) : List ℕ → Type 0 where
  here : {l : List ℕ} → In i (i ∷ l)
  there : {k : ℕ} {l : List ℕ} → In i l → In i (k ∷ l)

In-append : (i : ℕ) (l m : List ℕ) → In i l → In i (l ++ m)
In-append i [] m h = elim h [ ]
In-append i (k ∷ l) m here = here
In-append i (k ∷ l) m (there h) = there (In-append i l m h)

In-last : (i : ℕ) (l : List ℕ) → In i (l ++ i ∷ [])
In-last i [] = here
In-last i (k ∷ l) = there (In-last i l)

-- The nodes below a root.
pub data Below (kids : ℕ → List ℕ) (r : ℕ) : ℕ → Type 0 where
  top : Below kids r r
  child : {j i : ℕ} → Below kids r j → In i (kids j) → Below kids r i

-- There is a root, and the node is below it.
abbrev pub IsReached : Links → ℕ → Type 0
IsReached l i = (r : ℕ) × (l.root ≡ some r) × Below l.kids r i

-- Later steps keep what has been linked.
record Extends (l m : Links) : Type 0 where
  keeps : (j i : ℕ) → In i (l.kids j) → In i (m.kids j)
  rooted : (r : ℕ) → l.root ≡ some r → m.root ≡ some r

-- How the node is linked: below its parent, or as the root or below it.
abbrev IsPlaced : Links → ℕ → Option ℕ → Type 0
IsPlaced l i none = (r : ℕ) × (l.root ≡ some r) × ((i ≡ r) ⊎ In i (l.kids r))
IsPlaced l i (some j) = In i (l.kids j)

Extends-trans : (a b c : Links) → Extends a b → Extends b c → Extends a c
Extends-trans a b c f g = record {
  keeps = λ j i h. g.keeps j i (f.keeps j i h);
  rooted = λ r e. g.rooted r (f.rooted r e);
}

IsPlaced-Extends :
    (a b : Links) (i : ℕ) (p : Option ℕ) → Extends a b → IsPlaced a i p → IsPlaced b i p
IsPlaced-Extends a b i none f (r, e, inl top_) = (r, f.rooted r e, inl top_)
IsPlaced-Extends a b i none f (r, e, inr h) = (r, f.rooted r e, inr (f.keeps r i h))
IsPlaced-Extends a b i (some j) f h = f.keeps j i h

add_kid-keeps : (kids : ℕ → List ℕ) (j i k x : ℕ) → In x (kids k) → In x (add_kid kids j i k)
add_kid-keeps kids j i k x h = elim (Bool-cases (k == j)) [
  | inl same ↦ rw same (In-append x (kids k) (i ∷ []) h)
  | inr other ↦ rw other h
]

add_kid-In : (kids : ℕ → List ℕ) (j i : ℕ) → In i (add_kid kids j i j)
add_kid-In kids j i = let same : (j == j) ≡ true = ground arith in rw same (In-last i (kids j))

add_kid-Extends : (l : Links) (j i : ℕ) → Extends l (record l { kids = add_kid l.kids j i })
add_kid-Extends l j i = record {
  keeps = λ k x h. add_kid-keeps l.kids j i k x h;
  rooted = λ r e. e;
}

attach_rootless-Extends :
    (i : ℕ) (l : Links) (root : Option ℕ) → l.root ≡ root → Extends l (attach_rootless i l root)
unfolding attach_rootless
attach_rootless-Extends i l none e = record {
  keeps = λ k x h. h;
  rooted = λ r q. absurd (cc (e, q));
}
attach_rootless-Extends i l (some r) e = add_kid-Extends l r i

attach_rootless-IsPlaced :
    (i : ℕ) (l : Links) (root : Option ℕ)
    → l.root ≡ root
    → IsPlaced (attach_rootless i l root) i none
unfolding attach_rootless
attach_rootless-IsPlaced i l none e = (i, refl, inl refl)
attach_rootless-IsPlaced i l (some r) e = (r, e, inr (add_kid-In l.kids r i))

attach-Extends : (i : ℕ) (l : Links) (p : Option ℕ) → Extends l (attach i l p)
unfolding attach
attach-Extends i l (some j) = add_kid-Extends l j i
attach-Extends i l none = attach_rootless-Extends i l l.root refl

attach-IsPlaced : (i : ℕ) (l : Links) (p : Option ℕ) → IsPlaced (attach i l p) i p
unfolding attach
attach-IsPlaced i l (some j) = add_kid-In l.kids j i
attach-IsPlaced i l none = attach_rootless-IsPlaced i l l.root refl

link_from-Extends :
    (snaps : List Listed) (i : ℕ) (rest : List Listed) (l : Links)
    → Extends l (link_from snaps i rest l)
unfolding link_from
link_from-Extends snaps i [] l = record { keeps = λ k x h. h; rooted = λ r e. e }
link_from-Extends snaps i (s ∷ rest) l =
    let p = parent_index snaps i s in
    Extends-trans l (attach i l p) (link_from snaps (i + 1) rest (attach i l p))
      (attach-Extends i l p) (link_from-Extends snaps (i + 1) rest (attach i l p))

link_from-IsPlaced :
    (snaps : List Listed) (i : ℕ) (rest : List Listed) (l : Links) (k : ℕ) (s : Listed)
    → get_elem? rest k ≡ some s
    → IsPlaced (link_from snaps i rest l) (i + k) (parent_index snaps (i + k) s)
unfolding link_from
link_from-IsPlaced snaps i [] l k s e = cc
link_from-IsPlaced snaps i (t ∷ rest) l zero s e =
    let same : t ≡ s = some-injective t s e in
    let p = parent_index snaps i t in
    let first : IsPlaced (link_from snaps i (t ∷ rest) l) i p =
      IsPlaced-Extends (attach i l p) (link_from snaps (i + 1) rest (attach i l p)) i p
        (link_from-Extends snaps (i + 1) rest (attach i l p)) (attach-IsPlaced i l p) in
    let shift : i + 0 ≡ i = omega arith in rw (shift, ← same) first
link_from-IsPlaced snaps i (t ∷ rest) l (suc k) s e =
    let later = link_from-IsPlaced snaps (i + 1) rest (attach i l (parent_index snaps i t)) k s e in
    let shift : i + 1 + k ≡ i + suc k = omega arith in rw (← shift) later

lv_list_snapshots-IsPlaced :
    (snaps : List Listed) (i : ℕ) (s : Listed)
    → get_elem? snaps i ≡ some s
    → IsPlaced (lv_list_snapshots snaps) i (parent_index snaps i s)
unfolding lv_list_snapshots
lv_list_snapshots-IsPlaced snaps i s e =
    let same : 0 + i ≡ i = omega arith in
    rw same at (link_from-IsPlaced snaps 0 snaps (record { kids = λ k. []; root = none }) i s e)

find_parent-Valid :
    (i : ℕ) (name : Bytes) (j : ℕ) (snaps : List Listed) (k : ℕ)
    → find_parent i name j snaps ≡ some k
    → (d : ℕ) × (k ≡ j + d) × (t : Listed) × (get_elem? snaps d ≡ some t)
unfolding find_parent
find_parent-Valid i name j [] k e = cc
find_parent-Valid i name j (s ∷ snaps) k e =
    elim (Bool-cases (not (j == i) && strcmp_eq s.name name)) [
      | inl hit ↦
          let same : some j ≡ some k = rw hit at e in
          (0, omega (arith, some-injective j k same), s, refl)
      | inr miss ↦
          let (d, shift, t, stands) = find_parent-Valid i name (j + 1) snaps k (rw miss at e) in
          (suc d, omega (arith, shift), t, stands)
    ]

parent_index-Valid :
    (snaps : List Listed) (i : ℕ) (s : Listed) (j : ℕ)
    → parent_index snaps i s ≡ some j
    → (t : Listed) × (get_elem? snaps j ≡ some t)
unfolding parent_index
parent_index-Valid snaps i s j e = elim (Option-cases (extract_snapshot_parent_name s.xml)) [
  | inl missing ↦ let no : none ≡ some j = rw missing at e in cc
  | inr (name, named) ↦
      let found : find_parent i name 0 snaps ≡ some j = rw named at e in
      let (d, shift, t, stands) = find_parent-Valid i name 0 snaps j found in
      let same : j ≡ d = omega (arith, shift) in (t, rw same stands)
]

left_over : (l : Links) (i : ℕ) → IsPlaced l i none → IsReached l i
left_over l i (r, e, inl same) = (r, e, rw same top)
left_over l i (r, e, inr h) = (r, e, child top h)

-- What a ranking of the snapshots gives, by steps to the parent.
IsReached-by_rank :
    (snaps : List Listed) (rank : ℕ → ℕ)
    → ((i j : ℕ) (s : Listed)
        → get_elem? snaps i ≡ some s
        → parent_index snaps i s ≡ some j
        → rank j < rank i)
    → (fuel i : ℕ) (s : Listed) → rank i < fuel
    → get_elem? snaps i ≡ some s
    → IsReached (lv_list_snapshots snaps) i
IsReached-by_rank snaps rank falls zero i s h e = absurd (omega (arith, h))
IsReached-by_rank snaps rank falls (suc fuel) i s h e =
    elim (Option-cases (parent_index snaps i s)) [
      | inl left ↦
          let placed : IsPlaced (lv_list_snapshots snaps) i none =
            rw left at (lv_list_snapshots-IsPlaced snaps i s e) in
          left_over (lv_list_snapshots snaps) i placed
      | inr (j, p) ↦
          let placed : IsPlaced (lv_list_snapshots snaps) i (some j) =
            rw p at (lv_list_snapshots-IsPlaced snaps i s e) in
          let less = falls i j s e p in
          let (t, stands) = parent_index-Valid snaps i s j p in
          let (r, rooted, above) =
            IsReached-by_rank snaps rank falls fuel j t (omega (arith, less, h)) stands in
          (r, rooted, child above placed)
    ]

-- If no snapshot is its own ancestor, which a rank that falls from each snapshot to its parent shows,
-- then the list has a root, and every snapshot is below it: in any order of the list, with names that
-- stand twice, and with parents that are not in the list.
pub lv_list_snapshots-IsReached :
    (snaps : List Listed) (rank : ℕ → ℕ) (i : ℕ) (s : Listed)
    → ((i j : ℕ) (s : Listed)
        → get_elem? snaps i ≡ some s
        → parent_index snaps i s ≡ some j
        → rank j < rank i)
    → get_elem? snaps i ≡ some s
    → IsReached (lv_list_snapshots snaps) i
lv_list_snapshots-IsReached snaps rank i s falls e =
    IsReached-by_rank snaps rank falls (suc (rank i)) i s (ground arith) e
