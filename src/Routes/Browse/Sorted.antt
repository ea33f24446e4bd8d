-- ===== src/Routes/Browse/Sorted.antt =====
-- The order in which `handle_browse_dir` lists the directories.
use mathlib.Core.List.{Perm, Permᴰ}
use mathlib.Core.List.Permᴰ
use mathlib.Core.Path.{subst}
use qemu_snapshot_web_manage.Prelude.{
  ℕ, zero, suc, ◌≤◌, ◌≡◌, refl, sym, ap, inl, inr, Bool, true, false, not, ◌&&◌, ◌||◌, List, [],
  ◌∷◌, arith, length, All, Bytes, strcmp_eq, Bool-cases, if◌then◌else◌,
}
use qemu_snapshot_web_manage.Config.Dropins.{strcmp_le}
use qemu_snapshot_web_manage.Config.Dropins.Order.{strcmp_le-total, strcmp_le_trans}
use qemu_snapshot_web_manage.Routes.Browse.{parent, must_swap, select, sort_rounds, sort_entries}

-- The parent before every other name, the others by their bytes.
unfoldable pub entry_le : Bytes → Bytes → Bool
entry_le a b = strcmp_eq a parent || (not (strcmp_eq b parent) && strcmp_le a b)

abbrev pub IsSorted : List Bytes → Type 0
IsSorted [] = Unit
IsSorted (a ∷ l) = All (λ b. entry_le a b ≡ true) l × IsSorted l

entry_le_trans : (a b c : Bytes) → entry_le a b ≡ true → entry_le b c ≡ true → entry_le a c ≡ true
unfolding entry_le
entry_le_trans a b c h k = ground (arith, strcmp_le_trans a b c)

must_swap-swapped : (a b : Bytes) → must_swap a b ≡ true → entry_le b a ≡ true
unfolding entry_le must_swap
must_swap-swapped a b h = ground (arith, strcmp_le-total a b)

must_swap-kept : (a b : Bytes) → must_swap a b ≡ false → entry_le a b ≡ true
unfolding entry_le must_swap
must_swap-kept a b h = ground arith

entry_le_refl : (a : Bytes) → entry_le a a ≡ true
unfolding entry_le
entry_le_refl a = elim (Bool-cases (strcmp_le a a)) [
  | inl le ↦ ground (arith, le)
  | inr gt ↦ ground (arith, strcmp_le-total a a gt)
]

-- What a pass of the inner loop over the entry `a` and those behind it leaves: an entry that is not after
-- any of them, and the rest of them.
abbrev IsLeast : Bytes → List Bytes → Bytes × List Bytes → Type 0
IsLeast a rest (first, others) =
    (entry_le first a ≡ true)
    × All (λ b. entry_le first b ≡ true) others
    × Permᴰ (a ∷ rest) (first ∷ others)
    × (length others ≡ length rest)

-- One entry that stays behind the one carried on.
one_behind :
    (w l : Bytes) (rest : List Bytes) (r : Bytes × List Bytes)
    → entry_le w l ≡ true
    → IsLeast w rest r
    → IsLeast w (l ∷ rest) (r.0, l ∷ r.1)
one_behind w l rest (first, others) h (le, all, perm, len) = (
  le,
  (entry_le_trans first w l le h, all),
  Permᴰ.trans (Permᴰ.swap refl refl) (Permᴰ.trans (Permᴰ.cons refl perm) (Permᴰ.swap refl refl)),
  ap suc len,
)

-- A pass that meets the entry `b` behind `a`, as one that carries on the entry `w` and leaves `l`.
select-cons :
    (a b w l : Bytes) (rest : List Bytes)
    → (if must_swap a b then b else a) ≡ w
    → (if must_swap a b then a else b) ≡ l
    → select a (b ∷ rest) ≡ ((select w rest).0, l ∷ (select w rest).1)
unfolding select
select-cons a b w l rest carried left = rw (carried, left) refl

select-IsLeast : (a : Bytes) (rest : List Bytes) → IsLeast a rest (select a rest)
unfolding select
select-IsLeast a [] = (entry_le_refl a, tt, Permᴰ.refl (a ∷ []), refl)
select-IsLeast a (b ∷ rest) = elim (Bool-cases (must_swap a b)) [
  | inl swapped ↦
      let h = must_swap-swapped a b swapped in
      let (le, all, perm, len) = one_behind b a rest (select b rest) h (select-IsLeast b rest) in
      let r : Bytes × List Bytes = ((select b rest).0, a ∷ (select b rest).1) in
      let least : IsLeast a (b ∷ rest) r =
        (entry_le_trans r.0 b a le h, all, Permᴰ.trans (Permᴰ.swap refl refl) perm, len) in
      let passed : select a (b ∷ rest) ≡ r =
        select-cons a b b a rest (rw swapped refl) (rw swapped refl) in
      subst (IsLeast a (b ∷ rest)) (sym passed) least
  | inr kept ↦
      let passed = select-cons a b a b rest (rw kept refl) (rw kept refl) in
      subst (IsLeast a (b ∷ rest)) (sym passed)
        (one_behind a b rest (select a rest) (must_swap-kept a b kept) (select-IsLeast a rest))
]

All-perm : (P : Bytes → Type 0) {xs ys : List Bytes} → Permᴰ xs ys → All P xs → All P ys
All-perm P Permᴰ.nil all = tt
All-perm P (Permᴰ.cons e d) (first, all) = (subst P e first, All-perm P d all)
All-perm P (Permᴰ.swap e h) (first, (second, all)) = (subst P h second, (subst P e first, all))
All-perm P (Permᴰ.trans d e) all = All-perm P e (All-perm P d all)

sort_rounds-IsSorted :
    (rounds : ℕ) (entries : List Bytes)
    → length entries ≤ rounds
    → Permᴰ entries (sort_rounds rounds entries) × IsSorted (sort_rounds rounds entries)
unfolding sort_rounds
sort_rounds-IsSorted zero [] h = (Permᴰ.refl [], tt)
sort_rounds-IsSorted zero (a ∷ rest) h = absurd (omega arith)
sort_rounds-IsSorted (suc rounds) [] h = (Permᴰ.refl [], tt)
sort_rounds-IsSorted (suc rounds) (a ∷ rest) h =
    let least = select-IsLeast a rest in
    let (perm, sorted) = sort_rounds-IsSorted rounds (select a rest).1 (omega (arith, least)) in
    let first_is_least = All-perm (λ b. entry_le (select a rest).0 b ≡ true) perm least.1 in
    (Permᴰ.trans least.2 (Permᴰ.cons refl perm), (first_is_least, sorted))

-- The entries are listed in order, the parent first, and none is lost or listed twice that was read once.
pub sort_entries-IsSorted :
    (entries : List Bytes) → Perm entries (sort_entries entries) × IsSorted (sort_entries entries)
unfolding sort_entries
sort_entries-IsSorted entries =
    let (perm, sorted) = sort_rounds-IsSorted (length entries) entries (omega arith) in
    (∣ perm ∣₁, sorted)
