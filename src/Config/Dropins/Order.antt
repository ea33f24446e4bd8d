-- ===== src/Config/Dropins/Order.antt =====
-- The order in which a directory yields its files does not matter.
use mathlib.Core.List.{Perm, Permᴰ}
use mathlib.Core.Logic.{∥∥₁_elim}
use qemu_snapshot_web_manage.Prelude.{
  ℕ, zero, suc, ◌≤◌, ◌≡◌, refl, ap, ◌∙◌, inl, inr, true, false, Option, some, List, [], ◌∷◌, arith,
  length, Bytes, if◌then◌else◌, Bool-cases,
}
use qemu_snapshot_web_manage.Config.{Config}
use qemu_snapshot_web_manage.Config.Dropins.{
  strcmp_le, is_conf, collect, insert_sorted, sort_names, config_load_dropins,
}

pub strcmp_le-total : (a b : Bytes) → strcmp_le a b ≡ false → strcmp_le b a ≡ true
unfolding strcmp_le
strcmp_le-total [] b e = cc
strcmp_le-total (x ∷ a) [] e = refl
strcmp_le-total (x ∷ a) (y ∷ b) e = ground (arith, strcmp_le-total a b)

strcmp_le-antisym : (a b : Bytes) → strcmp_le a b ≡ true → strcmp_le b a ≡ true → a ≡ b
unfolding strcmp_le
strcmp_le-antisym [] [] e h = refl
strcmp_le-antisym [] (y ∷ b) e h = cc
strcmp_le-antisym (x ∷ a) [] e h = cc
strcmp_le-antisym (x ∷ a) (y ∷ b) e h = ground (arith, strcmp_le-antisym a b)

pub strcmp_le_trans :
    (a b c : Bytes) → strcmp_le a b ≡ true → strcmp_le b c ≡ true → strcmp_le a c ≡ true
unfolding strcmp_le
strcmp_le_trans [] b c e h = refl
strcmp_le_trans (x ∷ a) [] c e h = cc
strcmp_le_trans (x ∷ a) (y ∷ b) [] e h = cc
strcmp_le_trans (x ∷ a) (y ∷ b) (z ∷ c) e h = ground (arith, strcmp_le_trans a b c)

-- Two insertions commute.
insert_sorted_comm :
    (a b : Bytes) (l : List Bytes)
    → insert_sorted a (insert_sorted b l) ≡ insert_sorted b (insert_sorted a l)
unfolding insert_sorted
insert_sorted_comm a b [] = ground (arith, strcmp_le-total a b, strcmp_le-antisym a b)
insert_sorted_comm a b (c ∷ l) = ground (
  arith,
  insert_sorted_comm a b l,
  strcmp_le-total a b,
  strcmp_le-total b a,
  strcmp_le-antisym a b,
  strcmp_le_trans a b c,
  strcmp_le_trans b a c,
  strcmp_le-total a c,
  strcmp_le-total b c,
  strcmp_le_trans a c b,
  strcmp_le_trans b c a,
  strcmp_le_trans c a b,
)

-- The names that are taken, where there is room for all of them.
unfoldable pub confs : List Bytes → List Bytes
confs [] = []
confs (name ∷ names) = if is_conf name then name ∷ confs names else confs names

collect-confs :
    (room : ℕ) (names : List Bytes) → length (confs names) ≤ room → collect room names ≡ confs names
unfolding collect confs
collect-confs room [] h = refl
collect-confs zero (name ∷ names) h = no_room (confs (name ∷ names)) h
  where
    no_room : (l : List Bytes) → length l ≤ 0 → [] ≡ l
    no_room [] h = refl
    no_room (a ∷ l) h = absurd (omega arith)
collect-confs (suc room) (name ∷ names) h =
    ground (arith, collect-confs room names, collect-confs (suc room) names)

-- What the files of two directories have in common.
abbrev SameFiles : List Bytes → List Bytes → Type 0
SameFiles xs ys =
    (sort_names (confs xs) ≡ sort_names (confs ys)) × (length (confs xs) ≡ length (confs ys))

confs-perm : {xs ys : List Bytes} → Permᴰ xs ys → SameFiles xs ys
unfolding confs sort_names
confs-perm Permᴰ.nil = (refl, refl)
confs-perm (Permᴰ.cons {a} {b} {l₁ = xs} {l₂ = ys} e d) =
    let rest = confs-perm d in
    rw e (elim (Bool-cases (is_conf b)) [
      | inl taken ↦ rw taken (ap (insert_sorted b) rest.0, ap suc rest.1)
      | inr passed ↦ rw passed rest
    ])
confs-perm (Permᴰ.swap {a} {b} {a' = c} {b' = d} {l} e h) =
    rw (e, h) (ground (arith, insert_sorted_comm d c (sort_names (confs l))))
confs-perm (Permᴰ.trans d e) =
    let first = confs-perm d in
    let second = confs-perm e in (first.0 ∙ second.0, first.1 ∙ second.1)

-- The settings do not depend on the order in which the directory yields its files, as long as it has
-- at most 128 files named `*.conf`.
pub config_load_dropins-perm :
    (read : Bytes → Option Bytes) (conf_dir : Bytes) (xs ys : List Bytes) (cfg : Config)
    → Perm xs ys
    → length (confs xs) ≤ 128
    → config_load_dropins read conf_dir (some xs) cfg
      ≡ config_load_dropins read conf_dir (some ys) cfg
unfolding config_load_dropins
config_load_dropins-perm read conf_dir xs ys cfg p h =
    let same : SameFiles xs ys = ∥∥₁_elim p (hlevel) confs-perm in
    let taken = collect-confs 128 xs h in
    let taken' = collect-confs 128 ys (omega (arith, same.1)) in rw (taken, taken', same.0, same.1)
