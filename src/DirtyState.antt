-- ===== src/DirtyState.antt =====
-- src/dirty_state.c: which machines have run since their last snapshot, kept in a table in memory
-- and in a JSON file. `jansson` and the file system enter as parameters: `Disk` holds the outcome
-- of each call, and `dumps` and `loads` stand for `json_dumpf` and `json_load_file`.
pub mod Disk
pub mod Table
pub mod WellFormed
pub mod Lookup
pub mod Observe
pub mod Persist
pub mod Refine
use qemu_snapshot_web_manage.Prelude.{
  ℕ, zero, suc, ◌+◌, Bool, true, false, not, Option, none, some, List, [], ◌∷◌, ◌++◌, ◌==◌, leb,
  if◌then◌else◌, Bytes, codes, length, snprintf_s,
}
use qemu_snapshot_web_manage.Json.{Json, Items, Fields, string, boolean, array, object, lookup}
use qemu_snapshot_web_manage.VmState.{VmState, running, paused, shutoff, other}
use Disk.{World, Outcomes, path_max, dirty_state_save}
use Table.{Entry, dirty_state_find, set_clean_at, clean_at, max_tracked_vms, name_size}

-- The static variables of the file.
pub record State : Type 0 where
  pub table : List Entry
  pub path : Bytes

-- What a call leaves behind, and whether it returned 0.
pub record Done : Type 0 where
  pub state : State
  pub world : World
  pub success : Bool

abbrev saving : (Json → Bytes) → Outcomes → State → World → Done
saving dumps o s w =
    let (w', done) = dirty_state_save dumps o s.table s.path w in
    record { state = s; world = w'; success = done }

abbrev failing : State → World → Done
failing s w = record { state = s; world = w; success = false }

abbrev succeeding : State → World → Done
succeeding s w = record { state = s; world = w; success = true }

-- `dirty_state_set` for a name that is not empty, on the result of `dirty_state_find`.
unfoldable pub set_found :
    (Json → Bytes) → Outcomes → Bytes → Bool → State → World → Option ℕ → Done
unfolding set_clean_at clean_at
set_found dumps o name is_clean s w (some i) =
    if clean_at s.table i is_clean
    then succeeding s w
    else saving dumps o (record s { table = set_clean_at s.table i is_clean }) w
set_found dumps o name is_clean s w none =
    if leb max_tracked_vms (length s.table)
    then failing s w
    else saving dumps o
        (record s {
          table =
              s.table ++ (record { name = snprintf_s name_size name; is_clean = is_clean } ∷ []);
        })
        w

unfoldable pub dirty_state_set :
    (Json → Bytes) → Outcomes → Option Bytes → Bool → State → World → Done
unfolding set_found dirty_state_find
dirty_state_set dumps o none is_clean s w = failing s w
dirty_state_set dumps o (some []) is_clean s w = failing s w
dirty_state_set dumps o (some (c ∷ name)) is_clean s w =
    set_found dumps o (c ∷ name) is_clean s w (dirty_state_find (c ∷ name) s.table)

unfoldable pub dirty_state_mark_clean :
    (Json → Bytes) → Outcomes → Option Bytes → State → World → Done
unfolding dirty_state_set
dirty_state_mark_clean dumps o name = dirty_state_set dumps o name true

unfoldable pub dirty_state_mark_dirty :
    (Json → Bytes) → Outcomes → Option Bytes → State → World → Done
unfolding dirty_state_set
dirty_state_mark_dirty dumps o name = dirty_state_set dumps o name false

-- The answer is `success` here: 1 is `true`.
abbrev answer : Bool → Done → Done
answer b d = record d { success = b }

unfoldable pub observe_stopped :
    (Json → Bytes) → Outcomes → Bytes → VmState → State → World → Option ℕ → Done
unfolding dirty_state_mark_dirty clean_at
observe_stopped dumps o name st s w (some i) = record {
  state = s;
  world = w;
  success = not (clean_at s.table i true);
}
observe_stopped dumps o name paused s w none =
    answer true (dirty_state_mark_dirty dumps o (some name) s w)
observe_stopped dumps o name _ s w none = failing s w

unfoldable pub dirty_state_is_dirty :
    (Json → Bytes) → Outcomes → Bytes → VmState → State → World → Done
unfolding dirty_state_mark_dirty observe_stopped dirty_state_find
dirty_state_is_dirty dumps o name running s w =
    answer true (dirty_state_mark_dirty dumps o (some name) s w)
dirty_state_is_dirty dumps o name st s w =
    observe_stopped dumps o name st s w (dirty_state_find name s.table)

unfoldable pub dirty_state_shutdown : State → State
dirty_state_shutdown s = record { table = []; path = [] }

-- An array element that `dirty_state_init` takes over: an object with a string and a boolean.
abbrev read_values : Option Json → Option Json → Option (Bytes × Bool)
read_values (some (string name)) (some (boolean is_clean)) = some (name, is_clean)
read_values _ _ = none

unfoldable pub read_entry : Json → Option (Bytes × Bool)
read_entry (object fs) = read_values (lookup (codes "name") fs) (lookup (codes "is_clean") fs)
read_entry _ = none

-- An entry for an empty name is skipped.
unfoldable pub add_loaded : List Entry → Bytes → Bool → List Entry
add_loaded table [] is_clean = table
add_loaded table (c ∷ name) is_clean =
    table ++ (record { name = snprintf_s name_size (c ∷ name); is_clean = is_clean } ∷ [])

-- The loop over the array: `continue` for an element that does not fit, `break` on a full table.
unfoldable pub load_entries : List Entry → Items → List Entry
unfolding read_entry add_loaded
load_entries table Items.nil = table
load_entries table (Items.cons e es) = elim (read_entry e) [
  | none ↦ load_entries table es
  | some (name, is_clean) ↦ elim (leb max_tracked_vms (length table)) [
    | true ↦ table
    | false ↦ load_entries (add_loaded table name is_clean) es
  ]
]

unfoldable pub load_root : State → Option Json → State × Bool
unfolding load_entries
load_root s (some (array es)) = (record s { table = load_entries s.table es }, true)
load_root s _ = (s, false)

-- What `access(path, F_OK)` says, and the file's text where it can be read.
pub data Access : Type 0 where
  found missing denied : Access

abbrev load_found : (Bytes → Option Json) → State → Option Bytes → State × Bool
load_found loads s none = load_root s none
load_found loads s (some text) = load_root s (loads text)

unfoldable pub load_file : (Bytes → Option Json) → Access → World → State → State × Bool
unfolding load_root
load_file loads missing w s = (s, true)
load_file loads denied w s = (s, false)
load_file loads found w s = load_found loads s w.file

unfoldable pub dirty_state_init :
    (Bytes → Option Json) → Access → Option Bytes → World → State → State × Bool
unfolding dirty_state_shutdown load_file
dirty_state_init loads a none w s = (dirty_state_shutdown s, true)
dirty_state_init loads a (some []) w s = (dirty_state_shutdown s, true)
dirty_state_init loads a (some (c ∷ path)) w s =
    let cleared = dirty_state_shutdown s in
    if leb path_max (length (c ∷ path))
    then (cleared, false)
    else load_file loads a w (record cleared { path = c ∷ path })
