-- ===== src/DirtyState/Table.antt =====
-- The table of src/dirty_state.c: its first `dirty_state_count` rows.
use qemu_snapshot_web_manage.Prelude.{
  ℕ, zero, suc, Bool, true, false, not, Option, none, some, List, [], ◌∷◌, if◌then◌else◌, Bytes,
  strcmp_eq,
}
use mathlib.Core.Option

pub record Entry : Type 0 where
  pub name : Bytes
  pub is_clean : Bool

abbrev pub max_tracked_vms : ℕ
max_tracked_vms = 128

abbrev pub name_size : ℕ
name_size = 256

-- The index of the first row with the name; -1 of the source is `none`.
unfoldable pub dirty_state_find : Bytes → List Entry → Option ℕ
dirty_state_find name [] = none
dirty_state_find name (e ∷ es) =
    if strcmp_eq e.name name then some 0 else Option.map suc (dirty_state_find name es)

-- `dirty_state_table[i].is_clean = is_clean`
unfoldable pub set_clean_at : List Entry → ℕ → Bool → List Entry
set_clean_at [] i b = []
set_clean_at (e ∷ es) zero b = record e { is_clean = b } ∷ es
set_clean_at (e ∷ es) (suc i) b = e ∷ set_clean_at es i b

abbrev same : Bool → Bool → Bool
same true b = b
same false b = not b

-- `dirty_state_table[i].is_clean == is_clean`
unfoldable pub clean_at : List Entry → ℕ → Bool → Bool
clean_at [] i b = false
clean_at (e ∷ es) zero b = same e.is_clean b
clean_at (e ∷ es) (suc i) b = clean_at es i b
