-- ===== src/DirtyState/Disk.antt =====
-- `ensure_parent_dir` and `dirty_state_save` of src/dirty_state.c.
use qemu_snapshot_web_manage.Prelude.{
  ℕ, ◌+◌, Bool, true, false, not, Option, none, some, List, [], ◌∷◌, ◌++◌, ◌==◌, leb, if◌then◌else◌,
  Bytes, codes, length,
}
use qemu_snapshot_web_manage.Json.{Json, Items, string, boolean, array, object, end, field}
use qemu_snapshot_web_manage.DirtyState.Table.{Entry}

abbrev pub path_max : ℕ
path_max = 4096

-- The file of the table and the temporary file beside it: their texts, where they exist.
pub record World : Type 0 where
  pub file : Option Bytes
  pub tmp : Option Bytes

-- How the calls of one save end. `mkdir` is also `true` where the directory is there already.
pub record Outcomes : Type 0 where
  pub mkdir : Bytes → Bool
  pub builds : Bool
  pub opens : Bool
  pub writes : Bool
  pub closes : Bool
  pub renames : Bool

-- The text before the last slash, the slash that `strrchr` finds.
unfoldable pub parent_of : Bytes → Option Bytes
parent_of [] = none
parent_of (c ∷ s) = elim (parent_of s) [
  | some dir ↦ some (c ∷ dir)
  | none ↦ if c == b'/' then some [] else none
]

-- The loop over `dir`: `made` is the part before `p`. The directories that are made, in order, and
-- whether all could be made.
unfoldable pub mkdir_loop : (Bytes → Bool) → Bytes → Bytes → List Bytes × Bool
mkdir_loop mkdir made [] = (made ∷ [], mkdir made)
mkdir_loop mkdir made (c ∷ rest) =
    let (dirs, done) = mkdir_loop mkdir (made ++ c ∷ []) rest in
    if c == b'/'
    then (if mkdir made then (made ∷ dirs, done) else (made ∷ [], false))
    else (dirs, done)

unfoldable pub make_dirs : (Bytes → Bool) → Option Bytes → List Bytes × Bool
unfolding mkdir_loop
make_dirs mkdir none = ([], true)
make_dirs mkdir (some []) = ([], true)
make_dirs mkdir (some (c ∷ dir)) = mkdir_loop mkdir (c ∷ []) dir

unfoldable pub ensure_parent_dir : (Bytes → Bool) → Bytes → List Bytes × Bool
unfolding make_dirs parent_of
ensure_parent_dir mkdir [] = ([], true)
ensure_parent_dir mkdir (c ∷ path) =
    if leb path_max (length (c ∷ path)) then ([], false) else make_dirs mkdir (parent_of (c ∷ path))

unfoldable pub entry_to_json : Entry → Json
entry_to_json e =
    object
      (field (codes "name") (string e.name) (field (codes "is_clean") (boolean e.is_clean) end))

unfoldable pub table_to_items : List Entry → Items
unfolding entry_to_json
table_to_items [] = Items.nil
table_to_items (e ∷ es) = Items.cons (entry_to_json e) (table_to_items es)

-- The steps after the checks: write the temporary file, close it, rename it over the file.
unfoldable pub replace_file : Outcomes → Bytes → World → World × Bool
replace_file o text w =
    let unlinked = record w { tmp = none } in
    if not o.opens
    then (w, false)
    else if not o.writes
    then (unlinked, false)
    else if not o.closes
    then (unlinked, false)
    else if not o.renames
    then (unlinked, false)
    else (record { file = some text; tmp = none }, true)

unfoldable pub dirty_state_save :
    (Json → Bytes) → Outcomes → List Entry → Bytes → World → World × Bool
dirty_state_save dumps o table [] w = (w, true)
dirty_state_save dumps o table (c ∷ path) w =
    if not (ensure_parent_dir o.mkdir (c ∷ path)).1
    then (w, false)
    else if leb path_max (length (c ∷ path) + 4)
    then (w, false)
    else if not o.builds
    then (w, false)
    else replace_file o (dumps (array (table_to_items table)) ++ b'\n' ∷ []) w
