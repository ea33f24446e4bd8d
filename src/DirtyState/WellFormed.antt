-- ===== src/DirtyState/WellFormed.antt =====
-- Every operation keeps the table of src/dirty_state.c within its bounds.
use qemu_snapshot_web_manage.Prelude.{
  ℕ, zero, suc, ◌≤◌, ◌<◌, ◌≡◌, refl, inl, inr, Bool, false, Option, none, some, List, [], ◌∷◌, ◌++◌,
  arith, length, length-append, length-take, All, All-append, Bytes, snprintf_s, leb, Bool-cases,
  Option-cases,
}
use qemu_snapshot_web_manage.Json.{Json, Items, array}
use qemu_snapshot_web_manage.VmState.{VmState, running, paused}
use qemu_snapshot_web_manage.DirtyState.Disk.{World, Outcomes}
use qemu_snapshot_web_manage.DirtyState.Table.{Entry, set_clean_at, dirty_state_find}
use qemu_snapshot_web_manage.DirtyState.{
  State, dirty_state_set, set_found, dirty_state_is_dirty, observe_stopped, dirty_state_init,
  load_entries, add_loaded, read_entry, load_root, load_file, Access, found, missing, denied,
}

-- A name that a row can hold: `char name[256]`, with the final NUL, and never empty.
abbrev pub FitsRow : Bytes → Type 0
FitsRow name = (0 < length name) × (length name < 256)

abbrev pub RowIsNamed : Entry → Type 0
RowIsNamed e = FitsRow e.name

pub record WellFormed (table : List Entry) : Type 0 where
  pub bounded : length table ≤ 128
  pub named : All RowIsNamed table

pub length-set_clean_at :
    (t : List Entry) (i : ℕ) (b : Bool) → length (set_clean_at t i b) ≡ length t
unfolding set_clean_at
length-set_clean_at [] i b = refl
length-set_clean_at (e ∷ es) zero b = refl
length-set_clean_at (e ∷ es) (suc i) b = omega (arith, length-set_clean_at es i b)

set_clean_at-named :
    (t : List Entry) (i : ℕ) (b : Bool) → All RowIsNamed t → All RowIsNamed (set_clean_at t i b)
unfolding set_clean_at
set_clean_at-named [] i b h = tt
set_clean_at-named (e ∷ es) zero b h = h
set_clean_at-named (e ∷ es) (suc i) b h = (h.0, set_clean_at-named es i b h.1)

set_clean_at-WellFormed :
    (t : List Entry) (i : ℕ) (b : Bool) → WellFormed t → WellFormed (set_clean_at t i b)
set_clean_at-WellFormed t i b v = record {
  bounded = omega (arith, length-set_clean_at t i b, v.bounded);
  named = set_clean_at-named t i b v.named;
}

-- A new row, whose name is cut to the size of the field.
append-WellFormed :
    (t : List Entry) (c : ℕ) (name : Bytes) (b : Bool)
    → length t < 128
    → WellFormed t
    → WellFormed (t ++ (record { name = snprintf_s 256 (c ∷ name); is_clean = b } ∷ []))
append-WellFormed t c name b room v =
    let row : Entry = record { name = snprintf_s 256 (c ∷ name); is_clean = b } in
    record {
      bounded = omega (arith, length-append t (row ∷ []));
      named =
          All-append RowIsNamed t (row ∷ []) v.named
            ((omega (arith, length-take 254 name), omega (arith, length-take 254 name)), tt);
    }

module _ (dumps : Json → Bytes) (o : Outcomes) where
  set_found-WellFormed :
      (c : ℕ) (name : Bytes) (b : Bool) (s : State) (w : World) (i : Option ℕ)
      → WellFormed s.table
      → WellFormed (set_found dumps o (c ∷ name) b s w i).state.table
  unfolding set_found
  set_found-WellFormed c name b s w (some i) v =
      ground (arith, set_clean_at-WellFormed s.table i b v)
  set_found-WellFormed c name b s w none v = ground (arith, append-WellFormed s.table c name b)

  -- A mark, of any name and whatever the disk does, keeps at most 128 rows, each with a name of 1 to
  -- 255 bytes.
  pub dirty_state_set-WellFormed :
      (name : Option Bytes) (b : Bool) (s : State) (w : World)
      → WellFormed s.table
      → WellFormed (dirty_state_set dumps o name b s w).state.table
  unfolding dirty_state_set
  dirty_state_set-WellFormed none b s w v = v
  dirty_state_set-WellFormed (some []) b s w v = v
  dirty_state_set-WellFormed (some (c ∷ name)) b s w v =
      set_found-WellFormed c name b s w (dirty_state_find (c ∷ name) s.table) v

  observe_stopped-WellFormed :
      (name : Bytes) (st : VmState) (s : State) (w : World) (i : Option ℕ)
      → WellFormed s.table
      → WellFormed (observe_stopped dumps o name st s w i).state.table
  unfolding observe_stopped
  observe_stopped-WellFormed name st s w (some i) v = v
  observe_stopped-WellFormed name paused s w none v =
      dirty_state_set-WellFormed (some name) false s w v
  observe_stopped-WellFormed name _ s w none v = v

  -- A query may mark, and keeps these bounds too.
  pub dirty_state_is_dirty-WellFormed :
      (name : Bytes) (st : VmState) (s : State) (w : World)
      → WellFormed s.table
      → WellFormed (dirty_state_is_dirty dumps o name st s w).state.table
  unfolding dirty_state_is_dirty
  dirty_state_is_dirty-WellFormed name running s w v =
      dirty_state_set-WellFormed (some name) false s w v
  dirty_state_is_dirty-WellFormed name st s w v =
      observe_stopped-WellFormed name st s w (dirty_state_find name s.table) v

add_loaded-WellFormed :
    (t : List Entry) (name : Bytes) (b : Bool)
    → length t < 128
    → WellFormed t
    → WellFormed (add_loaded t name b)
unfolding add_loaded
add_loaded-WellFormed t [] b room v = v
add_loaded-WellFormed t (c ∷ name) b room v = append-WellFormed t c name b room v

load_entries-WellFormed :
    (es : Items) (t : List Entry) → WellFormed t → WellFormed (load_entries t es)
unfolding load_entries
load_entries-WellFormed Items.nil t v = v
load_entries-WellFormed (Items.cons e es) t v = elim (Option-cases (read_entry e)) [
  | inl skipped ↦ rw (skipped, load_entries) (load_entries-WellFormed es t v)
  | inr ((name, b), read) ↦ elim (Bool-cases (leb 128 (length t))) [
    | inl full ↦ rw (read, load_entries) (rw full v)
    | inr room ↦
        rw (read, load_entries)
          (rw room (
            load_entries-WellFormed es (add_loaded t name b)
              (add_loaded-WellFormed t name b (ground arith) v)))
  ]
]

empty-WellFormed : WellFormed []
empty-WellFormed = record { bounded = omega arith; named = tt }

load_root-WellFormed :
    (s : State) (root : Option Json) → WellFormed s.table → WellFormed (load_root s root).0.table
unfolding load_root
load_root-WellFormed s none v = v
load_root-WellFormed s (some (array es)) v = load_entries-WellFormed es s.table v
load_root-WellFormed s (some _) v = v

load_file-WellFormed :
    (loads : Bytes → Option Json) (a : Access) (text tmp : Option Bytes) (s : State)
    → WellFormed s.table
    → WellFormed (load_file loads a (record { file = text; tmp = tmp }) s).0.table
unfolding load_file
load_file-WellFormed loads missing text tmp s v = v
load_file-WellFormed loads denied text tmp s v = v
load_file-WellFormed loads found none tmp s v = load_root-WellFormed s none v
load_file-WellFormed loads found (some text) tmp s v = load_root-WellFormed s (loads text) v

-- Whatever file is found at start, the table that it gives is within these bounds.
pub dirty_state_init-WellFormed :
    (loads : Bytes → Option Json) (a : Access) (path : Option Bytes) (w : World) (s : State)
    → WellFormed (dirty_state_init loads a path w s).0.table
unfolding dirty_state_init
dirty_state_init-WellFormed loads a none w s = empty-WellFormed
dirty_state_init-WellFormed loads a (some []) w s = empty-WellFormed
dirty_state_init-WellFormed loads a (some (c ∷ path)) w s =
    let cleared : State = record { table = []; path = c ∷ path } in
    let loaded = load_file-WellFormed loads a w.file w.tmp cleared empty-WellFormed in
    elim (Bool-cases (leb 4096 (length (c ∷ path)))) [
      | inl long ↦ rw long empty-WellFormed
      | inr short ↦ rw short loaded
    ]
