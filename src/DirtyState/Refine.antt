-- ===== src/DirtyState/Refine.antt =====
-- The table of src/dirty_state.c as an implementation of a map from names to flags.
use qemu_snapshot_web_manage.Prelude.{
  ℕ, ◌+◌, ◌≤◌, ◌≡◌, ◌≢◌, refl, ap, ◌∙◌, inl, inr, Bool, true, false, Option, none, some, List, [],
  ◌∷◌, ◌++◌, snprintf_s, arith, length, length-append, All, Bytes, strcmp_eq, leb, if◌then◌else◌,
  Bool-cases,
}
use qemu_snapshot_web_manage.Json.{Json}
use qemu_snapshot_web_manage.VmState.{VmState, running, paused, shutoff, other}
use qemu_snapshot_web_manage.DirtyState.Disk.{World, Outcomes}
use qemu_snapshot_web_manage.DirtyState.Table.{Entry, clean_at, dirty_state_find}
use qemu_snapshot_web_manage.DirtyState.{
  Done, State, dirty_state_set, set_found, dirty_state_mark_clean, dirty_state_mark_dirty,
  dirty_state_is_dirty, observe_stopped,
}
use qemu_snapshot_web_manage.DirtyState.WellFormed.{FitsRow, length-set_clean_at}
use qemu_snapshot_web_manage.DirtyState.Lookup.{
  flag_of, dirty_state_set-flag_of, dirty_state_find-Found, Found, tracked, untracked,
}
use qemu_snapshot_web_manage.DirtyState.Observe.{expected, dirty_state_is_dirty-expected}

-- A call of the three operations. Each has outcomes of its own for the calls of its save.
pub data Command : Type 0 where
  mark_clean mark_dirty : Bytes → Command
  query : Bytes → VmState → Command

abbrev pub name_of : Command → Bytes
name_of (mark_clean name) = name
name_of (mark_dirty name) = name
name_of (query name st) = name

-- The map, and what a command does to it.
abbrev pub Flags : Type 0
Flags = Bytes → Option Bool

abbrev pub set_flag : Bytes → Bool → Flags → Flags
set_flag name b f j = if strcmp_eq name j then some b else f j

abbrev observed : Bytes → VmState → Option Bool → Flags → Flags
observed name running flag f = set_flag name false f
observed name paused none f = set_flag name false f
observed name _ _ f = f

abbrev pub next_flags : Command → Flags → Flags
next_flags (mark_clean name) f = set_flag name true f
next_flags (mark_dirty name) f = set_flag name false f
next_flags (query name st) f = observed name st (f name) f

-- What a command answers: a query whether the machine is dirty, a mark nothing.
abbrev pub abstract_answer : Command → Flags → Option Bool
abstract_answer (mark_clean name) f = none
abstract_answer (mark_dirty name) f = none
abstract_answer (query name st) f = some (expected st (f name))

unfoldable pub abstract_run : List (Outcomes × Command) → Flags → List (Option Bool)
abstract_run [] f = []
abstract_run ((o, c) ∷ cs) f = abstract_answer c f ∷ abstract_run cs (next_flags c f)

-- The same commands on the table and its file.
abbrev pub perform : (Json → Bytes) → Outcomes → Command → State → World → Done
perform dumps o (mark_clean name) s w = dirty_state_mark_clean dumps o (some name) s w
perform dumps o (mark_dirty name) s w = dirty_state_mark_dirty dumps o (some name) s w
perform dumps o (query name st) s w = dirty_state_is_dirty dumps o name st s w

abbrev pub answer_of : Command → Done → Option Bool
answer_of (query name st) d = some d.success
answer_of _ d = none

unfoldable pub run : (Json → Bytes) → List (Outcomes × Command) → State → World → List (Option Bool)
run dumps [] s w = []
run dumps ((o, c) ∷ cs) s w =
    let d = perform dumps o c s w in answer_of c d ∷ run dumps cs d.state d.world

abbrev Represents : List Entry → Flags → Type 0
Represents t f = (j : Bytes) → flag_of j t ≡ f j

module _ (dumps : Json → Bytes) (o : Outcomes) (s : State) (w : World) where
  length-set_found :
      (name : Bytes) (b : Bool) (i : Option ℕ)
      → length (set_found dumps o name b s w i).state.table ≤ length s.table + 1
  unfolding set_found
  length-set_found name b none =
      let row : Entry = record { name = snprintf_s 256 name; is_clean = b } in
      let longer : length (s.table ++ row ∷ []) ≡ length s.table + 1 =
        length-append s.table (row ∷ []) in
      elim (Bool-cases (leb 128 (length s.table))) [
        | inl full ↦ rw full (omega arith)
        | inr room ↦ rw room (omega arith)
      ]
  length-set_found name b (some i) =
      let kept = length-set_clean_at s.table i b in
      elim (Bool-cases (clean_at s.table i b)) [
        | inl done ↦ rw done (omega arith)
        | inr fresh ↦ rw fresh (omega arith)
      ]

  length-set :
      (name : Bytes) (b : Bool)
      → length (dirty_state_set dumps o (some name) b s w).state.table ≤ length s.table + 1
  unfolding dirty_state_set
  length-set [] b = omega arith
  length-set (c ∷ name) b = length-set_found (c ∷ name) b (dirty_state_find (c ∷ name) s.table)

  set_Represents :
      (name : Bytes) (b : Bool) (f : Flags)
      → FitsRow name
      → length s.table ≤ 127
      → Represents s.table f
      → Represents (dirty_state_set dumps o (some name) b s w).state.table (set_flag name b f)
  set_Represents name b f fits room r j =
      dirty_state_set-flag_of dumps o name b s w j (fits, inr (omega arith))
      ∙ ap (λ old. if strcmp_eq name j then some b else old) (r j)

  stopped_Represents :
      (name : Bytes) (st : VmState) (f : Flags) (i : Option ℕ)
      → st ≢ running
      → FitsRow name
      → length s.table ≤ 127
      → Represents s.table f
      → Found name s.table i
      → Represents
          (observe_stopped dumps o name st s w i).state.table
          (observed name st (flag_of name s.table) f)
  unfolding observe_stopped dirty_state_mark_dirty
  stopped_Represents name running f i ne fits room r h = absurd (ne refl)
  stopped_Represents name paused f none ne fits room r (untracked new) =
      rw new (set_Represents name false f fits room r)
  stopped_Represents name shutoff f none ne fits room r h = r
  stopped_Represents name other f none ne fits room r h = r
  stopped_Represents name paused f (some i) ne fits room r (tracked b flag c k) = rw flag r
  stopped_Represents name shutoff f (some i) ne fits room r h = r
  stopped_Represents name other f (some i) ne fits room r h = r

  query_Represents :
      (name : Bytes) (st : VmState) (f : Flags)
      → FitsRow name
      → length s.table ≤ 127
      → Represents s.table f
      → Represents
          (dirty_state_is_dirty dumps o name st s w).state.table
          (observed name st (f name) f)
  unfolding dirty_state_is_dirty dirty_state_mark_dirty
  query_Represents name running f fits room r = set_Represents name false f fits room r
  query_Represents name paused f fits room r = rw (← r name) (
      stopped_Represents name paused f _ (λ e. cc) fits room r
        (dirty_state_find-Found name s.table))
  query_Represents name shutoff f fits room r =
      stopped_Represents name shutoff f _ (λ e. cc) fits room r
        (dirty_state_find-Found name s.table)
  query_Represents name other f fits room r =
      stopped_Represents name other f _ (λ e. cc) fits room r (dirty_state_find-Found name s.table)

  perform-Represents :
      (c : Command) (f : Flags)
      → FitsRow (name_of c)
      → length s.table ≤ 127
      → Represents s.table f
      → Represents (perform dumps o c s w).state.table (next_flags c f)
  unfolding dirty_state_mark_clean dirty_state_mark_dirty
  perform-Represents (mark_clean name) f fits room r = set_Represents name true f fits room r
  perform-Represents (mark_dirty name) f fits room r = set_Represents name false f fits room r
  perform-Represents (query name st) f fits room r = query_Represents name st f fits room r

  length-stopped :
      (name : Bytes) (st : VmState) (i : Option ℕ)
      → length (observe_stopped dumps o name st s w i).state.table ≤ length s.table + 1
  unfolding observe_stopped dirty_state_mark_dirty
  length-stopped name st (some i) = omega arith
  length-stopped name paused none = length-set name false
  length-stopped name running none = omega arith
  length-stopped name shutoff none = omega arith
  length-stopped name other none = omega arith

  length-perform : (c : Command) → length (perform dumps o c s w).state.table ≤ length s.table + 1
  unfolding dirty_state_mark_clean dirty_state_mark_dirty dirty_state_is_dirty
  length-perform (mark_clean name) = length-set name true
  length-perform (mark_dirty name) = length-set name false
  length-perform (query name running) = length-set name false
  length-perform (query name paused) = length-stopped name paused (dirty_state_find name s.table)
  length-perform (query name shutoff) = length-stopped name shutoff (dirty_state_find name s.table)
  length-perform (query name other) = length-stopped name other (dirty_state_find name s.table)

  perform-abstract_answer :
      (c : Command) (f : Flags)
      → Represents s.table f
      → answer_of c (perform dumps o c s w) ≡ abstract_answer c f
  perform-abstract_answer (mark_clean name) f r = refl
  perform-abstract_answer (mark_dirty name) f r = refl
  perform-abstract_answer (query name st) f r =
      ap some (dirty_state_is_dirty-expected dumps o name st s w ∙ ap (expected st) (r name))

-- Whatever the disk does, the answers of any sequence of marks and queries on the table are those of a map
-- from names to flags that starts with the flags of the table: the map sets a flag for a mark, `false` for a
-- machine that a query sees running, and `false` for a paused machine without a flag. The names have 1 to 255
-- bytes, and the rows of the table and the commands are at most 128 together.
pub run-abstract_run :
    (dumps : Json → Bytes) (cs : List (Outcomes × Command)) (s : State) (w : World) (f : Flags)
    → All (λ c. FitsRow (name_of c.1)) cs
    → length s.table + length cs ≤ 128
    → ((j : Bytes) → flag_of j s.table ≡ f j)
    → run dumps cs s w ≡ abstract_run cs f
unfolding run abstract_run
run-abstract_run dumps [] s w f fits room r = refl
run-abstract_run dumps ((o, c) ∷ cs) s w f (fit, fits) room r =
    let d = perform dumps o c s w in
    let longer = length-perform dumps o s w c in
    let later : length d.state.table + length cs ≤ 128 = omega arith in
    let one_left : length s.table ≤ 127 = omega arith in
    let next = perform-Represents dumps o s w c f fit one_left r in
    let rest = run-abstract_run dumps cs d.state d.world (next_flags c f) fits later next in
    rw (perform-abstract_answer dumps o s w c f r, rest) refl
