-- ===== src/Tests/DirtyState.antt =====
-- The table of src/dirty_state.c on a concrete table and disk.
use qemu_snapshot_web_manage.Prelude.{
  if◌then◌else◌, ◌≡◌, refl, inr, arith, true, false, Option, some, none, List, [], ◌∷◌, ◌++◌, Bytes,
  codes, strcmp_eq,
}
use qemu_snapshot_web_manage.Json.{Json, array}
use qemu_snapshot_web_manage.VmState.{running, paused, shutoff}
use qemu_snapshot_web_manage.DirtyState.Table.{Entry, dirty_state_find}
use qemu_snapshot_web_manage.DirtyState.Disk.{
  World, Outcomes, dirty_state_save, ensure_parent_dir, table_to_items, replace_file,
}
use qemu_snapshot_web_manage.DirtyState.{State, found, dirty_state_is_dirty, dirty_state_init}
use qemu_snapshot_web_manage.DirtyState.WellFormed.{WellFormed}
use qemu_snapshot_web_manage.DirtyState.Lookup.{flag_of, CanTrack}
use qemu_snapshot_web_manage.DirtyState.Refine.{
  Command, mark_clean, query, run, abstract_run, run-abstract_run,
}
use qemu_snapshot_web_manage.DirtyState.Persist.{text_of, dirty_state_init-save}

abbrev all_well : Outcomes
all_well = record {
  mkdir = λ dir. true;
  builds = true;
  opens = true;
  writes = true;
  closes = true;
  renames = true;
}

-- A rename that fails.
abbrev no_rename : Outcomes
no_rename = record all_well { renames = false }

abbrev web : Bytes
web = codes "web"

abbrev db : Bytes
db = codes "db"

abbrev rows : List Entry
rows = record { name = web; is_clean = true } ∷ []

abbrev table_path : Bytes
table_path = codes "/d/t"

abbrev loaded : State
loaded = record { table = rows; path = table_path }

abbrev empty_world : World
empty_world = record { file = none; tmp = none }

-- A dump and a load for the document of `rows` alone.
abbrev rows_text : Bytes
rows_text = codes "[{\"name\":\"web\",\"is_clean\":true}]"

abbrev dumps : Json → Bytes
dumps j = rows_text

abbrev loads : Bytes → Option Json
loads text =
    if strcmp_eq text (rows_text ++ b'\n' ∷ []) then some (array (table_to_items rows)) else none

rows-WellFormed : WellFormed rows
rows-WellFormed = record { bounded = ground arith; named = ground arith }

db-CanTrack : CanTrack db rows
db-CanTrack = (ground arith, inr (ground arith))

find_test : dirty_state_find db rows ≡ none
unfolding dirty_state_find strcmp_eq
find_test = refl

is_dirty_test : (dirty_state_is_dirty dumps all_well web shutoff loaded empty_world).success ≡ false
unfolding dirty_state_is_dirty strcmp_eq
is_dirty_test = refl

rows-loads : loads (text_of dumps rows) ≡ some (array (table_to_items rows))
unfolding strcmp_eq
rows-loads = refl

rows_saved :
    dirty_state_save dumps all_well rows table_path empty_world
    ≡ (record { file = some (text_of dumps rows); tmp = none }, true)
unfolding dirty_state_save ensure_parent_dir replace_file
rows_saved = refl

dirty_state_init-save_example :
    dirty_state_init loads found
      (some table_path)
      (record { file = some (text_of dumps rows); tmp = none })
      loaded
    ≡ (loaded, true)
dirty_state_init-save_example =
    dirty_state_init-save dumps loads all_well rows table_path empty_world
      (record { file = some (text_of dumps rows); tmp = none }) loaded rows-loads rows-WellFormed
      (λ e. cc) rows_saved

-- `db` is seen running, marked clean while the rename of its save fails, and seen paused.
abbrev commands : List (Outcomes × Command)
commands =
    (all_well, query db running)
    ∷ (no_rename, mark_clean db)
    ∷ (all_well, query db paused)
    ∷ (all_well, query web shutoff)
    ∷ []

run-abstract_run_example :
    run dumps commands loaded empty_world ≡ abstract_run commands (λ j. flag_of j rows)
run-abstract_run_example =
    run-abstract_run dumps commands loaded empty_world (λ j. flag_of j rows) (ground arith)
      (ground arith) (λ j. refl)

abstract_run_test :
    abstract_run commands (λ j. flag_of j rows) ≡ some true ∷ none ∷ some false ∷ some false ∷ []
unfolding abstract_run strcmp_eq
abstract_run_test = refl
