-- ===== src/Libvirt/Listing/Occurs.antt =====
-- How often an index stands in a list of them: lemmas for the links of `lv_list_snapshots`.
use qemu_snapshot_web_manage.Prelude.{
  ℕ, zero, suc, false, ◌∙◌, ◌+◌, ◌==◌, ◌<◌, ◌≤◌, ◌≡◌, ◌≢◌, ◌⊎◌, inl, inr, refl, List, [], ◌∷◌, ◌++◌,
  Bool-cases, ltb, arith, if◌then◌else◌,
}
use mathlib.Core.List.{Perm}
use mathlib.Core.List.Perm
use qemu_snapshot_web_manage.Libvirt.Listing.Reach.{In, here, there}

unfoldable pub occurrences : ℕ → List ℕ → ℕ
occurrences x [] = 0
occurrences x (y ∷ ys) = (if x == y then 1 else 0) + occurrences x ys

pub occurrences-++ :
    (x : ℕ) (xs ys : List ℕ) → occurrences x (xs ++ ys) ≡ occurrences x xs + occurrences x ys
unfolding occurrences
occurrences-++ x [] ys = omega arith
occurrences-++ x (y ∷ xs) ys = omega (arith, occurrences-++ x xs ys)

pub occurrences-In : (x : ℕ) (xs : List ℕ) → In x xs → 1 ≤ occurrences x xs
unfolding occurrences
occurrences-In x [] h = elim h [ ]
occurrences-In x (y ∷ xs) here = ground arith
occurrences-In x (y ∷ xs) (there h) = omega (arith, occurrences-In x xs h)

pub occurrences-cases : (x : ℕ) (xs : List ℕ) → In x xs ⊎ (occurrences x xs ≡ 0)
unfolding occurrences
occurrences-cases x [] = inr refl
occurrences-cases x (y ∷ xs) = elim (Bool-cases (x == y)) [
  | inl same ↦ let e : x ≡ y = ground arith in inl (rw e here)
  | inr other ↦ elim (occurrences-cases x xs) [
    | inl old ↦ inl (there old)
    | inr none ↦ inr (rw other (omega (arith, none)))
  ]
]

remove : ℕ → List ℕ → List ℕ
remove n [] = []
remove n (x ∷ xs) = let rest = remove n xs in if n == x then rest else x ∷ rest

remove-absent : (n : ℕ) (xs : List ℕ) → occurrences n xs ≡ 0 → remove n xs ≡ xs
unfolding remove occurrences
remove-absent n [] h = refl
remove-absent n (x ∷ xs) h = elim (Bool-cases (n == x)) [
  | inl same ↦ absurd (ground (arith, h, same))
  | inr other ↦ rw (other, remove-absent n xs (omega (arith, h))) refl
]

-- What stands once can be taken to the front.
remove-perm : (n : ℕ) (xs : List ℕ) → occurrences n xs ≡ 1 → Perm xs (n ∷ remove n xs)
unfolding remove occurrences
remove-perm n [] h = absurd (omega (arith, h))
remove-perm n (x ∷ xs) h = elim (Bool-cases (n == x)) [
  | inl same ↦
      let e : n ≡ x = ground arith in
      let absent : occurrences n xs ≡ 0 = ground (arith, h, same) in
      rw (same, remove-absent n xs absent, e) (Perm.refl (x ∷ xs))
  | inr other ↦
      let once : occurrences n xs ≡ 1 = ground (arith, h, other) in
      rw other (Perm.trans (Perm.cons x (remove-perm n xs once)) (Perm.swap n x (remove n xs)))
]

occurrences-removed : (n : ℕ) (xs : List ℕ) → occurrences n (remove n xs) ≡ 0
unfolding remove occurrences
occurrences-removed n [] = refl
occurrences-removed n (x ∷ xs) = elim (Bool-cases (n == x)) [
  | inl same ↦ rw same (occurrences-removed n xs)
  | inr other ↦ rw (other, other, occurrences-removed n xs) refl
]

occurrences-remove :
    (x n : ℕ) (xs : List ℕ) → x ≢ n → occurrences x (remove n xs) ≡ occurrences x xs
unfolding remove occurrences
occurrences-remove x n [] ne = refl
occurrences-remove x n (y ∷ xs) ne = elim (Bool-cases (n == y)) [
  | inl same ↦
      let differs : (x == y) ≡ false = ground (arith, ne) in
      rw (same, differs) (omega (arith, occurrences-remove x n xs ne))
  | inr other ↦ rw (other, occurrences, occurrences-remove x n xs ne) refl
]

-- The `n` numbers from `j` on.
unfoldable pub upto : ℕ → ℕ → List ℕ
upto j zero = []
upto j (suc n) = j ∷ upto (j + 1) n

-- A list in which the `n` numbers from `j` on stand once each, and no other.
pub upto-perm :
    (j n : ℕ) (xs : List ℕ)
    → ((x : ℕ) → j ≤ x → x < j + n → occurrences x xs ≡ 1)
    → ((x : ℕ) → x < j → occurrences x xs ≡ 0)
    → ((x : ℕ) → j + n ≤ x → occurrences x xs ≡ 0)
    → Perm xs (upto j n)
unfolding upto
upto-perm j zero [] each less others = Perm.nil
upto-perm j zero (y ∷ xs) each less others =
    let stands = occurrences-In y (y ∷ xs) here in
    elim (Bool-cases (ltb y j)) [
      | inl low ↦ let below : y < j = ground arith in absurd (omega (arith, stands, less y below))
      | inr high ↦
          let above : j + 0 ≤ y = ground arith in absurd (omega (arith, stands, others y above))
    ]
upto-perm j (suc n) xs each less others =
    let here_j = each j (omega arith) (omega arith) in
    let keep : (x : ℕ) → x ≢ j → occurrences x (remove j xs) ≡ occurrences x xs =
      λ x ne. occurrences-remove x j xs ne in
    Perm.trans (remove-perm j xs here_j) (
      Perm.cons j (
        upto-perm (j + 1) n (remove j xs)
          (λ x low high.
            keep x (λ e. omega (arith, e, low)) ∙ each x (omega (arith, low)) (omega (arith, high)))
          (λ x low. elim (Bool-cases (x == j)) [
            | inl same ↦ let e : x ≡ j = ground arith in rw e (occurrences-removed j xs)
            | inr other ↦
                let ne : x ≢ j = ground arith in
                let below : x < j = ground arith in keep x ne ∙ less x below
          ])
          (λ x high. keep x (λ e. omega (arith, e, high)) ∙ others x (omega (arith, high)))))
