-- ===== src/DirtyState/Persist.antt =====
-- What a save leaves on the disk, and that a start reads it back.
use qemu_snapshot_web_manage.Prelude.{
  ℕ, ◌+◌, ◌≤◌, ◌<◌, ◌≡◌, ◌≢◌, ◌⊎◌, refl, sym, ap, ◌∙◌, inl, inr, Bool, true, false, Option, none,
  some, List, [], ◌∷◌, ◌++◌, arith, length, length-append, All, Bytes, leb, ◌==◌, strcmp_eq,
  Bool-cases, Option-cases, take-all, append_assoc, append-nil,
}
use qemu_snapshot_web_manage.Json.{Json, Items, array}
use qemu_snapshot_web_manage.DirtyState.Disk.{
  World, Outcomes, dirty_state_save, replace_file, table_to_items, entry_to_json, ensure_parent_dir,
  make_dirs, mkdir_loop, parent_of,
}
use qemu_snapshot_web_manage.DirtyState.Table.{Entry}
use qemu_snapshot_web_manage.DirtyState.{
  State, load_entries, read_entry, add_loaded, load_root, load_file, found, dirty_state_init,
}
use qemu_snapshot_web_manage.DirtyState.WellFormed.{RowIsNamed, FitsRow, WellFormed}

-- The text of a table.
abbrev pub text_of : (Json → Bytes) → List Entry → Bytes
text_of dumps table = dumps (array (table_to_items table)) ++ b'\n' ∷ []

-- Either the file holds the whole new text and no temporary file is left, or it is untouched.
abbrev pub AllOrNothing : Bytes → World → World × Bool → Type 0
AllOrNothing text w (w', true) = (w'.file ≡ some text) × (w'.tmp ≡ none)
AllOrNothing text w (w', false) = (w'.file ≡ w.file) × ((w'.tmp ≡ none) ⊎ (w'.tmp ≡ w.tmp))

replace_file-AllOrNothing :
    (o : Outcomes) (text : Bytes) (w : World) → AllOrNothing text w (replace_file o text w)
unfolding replace_file
replace_file-AllOrNothing o text w = ground arith

pub dirty_state_save-AllOrNothing :
    (dumps : Json → Bytes) (o : Outcomes) (table : List Entry) (path : Bytes) (w : World)
    → path ≢ []
    → AllOrNothing (text_of dumps table) w (dirty_state_save dumps o table path w)
unfolding dirty_state_save
dirty_state_save-AllOrNothing dumps o table [] w ne = absurd (ne refl)
dirty_state_save-AllOrNothing dumps o table (c ∷ path) w ne =
    ground (arith, replace_file-AllOrNothing o (text_of dumps table) w)

-- A save that succeeds had a path that fits the buffer.
save-fits :
    (dumps : Json → Bytes) (o : Outcomes) (table : List Entry) (c : ℕ) (path : Bytes) (w w' : World)
    → dirty_state_save dumps o table (c ∷ path) w ≡ (w', true)
    → length (c ∷ path) < 4096
unfolding dirty_state_save
save-fits dumps o table c path w w' e = ground arith

add_loaded-named :
    (t : List Entry) (name : Bytes) (b : Bool)
    → FitsRow name
    → add_loaded t name b ≡ t ++ (record { name = name; is_clean = b } ∷ [])
unfolding add_loaded
add_loaded-named t [] b h = absurd (omega (arith, h.0))
add_loaded-named t (c ∷ name) b h = rw (take-all 255 (c ∷ name) (omega arith))

read_entry-entry_to_json : (e : Entry) → read_entry (entry_to_json e) ≡ some (e.name, e.is_clean)
unfolding read_entry entry_to_json strcmp_eq
read_entry-entry_to_json e = refl

load_entries-cons :
    (t : List Entry) (j : Json) (es : Items) (name : Bytes) (b : Bool)
    → read_entry j ≡ some (name, b)
    → leb 128 (length t) ≡ false
    → load_entries t (Items.cons j es) ≡ load_entries (add_loaded t name b) es
unfolding load_entries
load_entries-cons t j es name b read room = rw (read, load_entries) (rw room refl)

table_to_items-cons :
    (e : Entry) (t : List Entry)
    → table_to_items (e ∷ t) ≡ Items.cons (entry_to_json e) (table_to_items t)
unfolding table_to_items
table_to_items-cons e t = refl

load_entries-table_to_items :
    (t acc : List Entry)
    → length acc + length t ≤ 128
    → All RowIsNamed t
    → load_entries acc (table_to_items t) ≡ acc ++ t
load_entries-table_to_items [] acc h a = unfold table_to_items load_entries in sym (append-nil acc)
load_entries-table_to_items (e ∷ t) acc h a =
    let room : leb 128 (length acc) ≡ false = ground arith in
    let size = length-append acc (e ∷ []) in
    rw table_to_items-cons (
      load_entries-cons acc (entry_to_json e) (table_to_items t) e.name e.is_clean
        (read_entry-entry_to_json e) room
      ∙ rw (add_loaded-named acc e.name e.is_clean a.0) (
          load_entries-table_to_items t (acc ++ e ∷ []) (omega arith) a.1
          ∙ append_assoc acc (e ∷ []) t))

-- If a table within the bounds is saved with success under a path, a start with this path finds the
-- same table, provided that `jansson` loads the text of the document that it has dumped.
pub dirty_state_init-save :
    (dumps : Json → Bytes) (loads : Bytes → Option Json) (o : Outcomes) (table : List Entry)
    (path : Bytes) (w w' : World) (s : State)
    → loads (text_of dumps table) ≡ some (array (table_to_items table))
    → WellFormed table
    → path ≢ []
    → dirty_state_save dumps o table path w ≡ (w', true)
    → dirty_state_init loads found (some path) w' s ≡ (record { table = table; path = path }, true)
unfolding dirty_state_init load_file load_root
dirty_state_init-save dumps loads o table [] w w' s back v ne e = absurd (ne refl)
dirty_state_init-save dumps loads o table (c ∷ path) w w' s back v ne e =
    let held : AllOrNothing (text_of dumps table) w (w', true) =
      rw e at (dirty_state_save-AllOrNothing dumps o table (c ∷ path) w ne) in
    let fits = save-fits dumps o table c path w w' e in
    let short : leb 4096 (length (c ∷ path)) ≡ false = ground arith in
    rw short (
      rw held.0 (
        rw back (
          ap (λ t. (record { table = t; path = c ∷ path }, true))
            (load_entries-table_to_items table [] (omega (arith, v.bounded)) v.named))))

-- A directory that comes before `path`, up to one of its slashes.
abbrev pub IsAncestor : Bytes → Bytes → Type 0
IsAncestor path dir = (rest : Bytes) × (path ≡ dir ++ b'/' ∷ rest)

parent_of-split : (path dir : Bytes) → parent_of path ≡ some dir → IsAncestor path dir
unfolding parent_of
parent_of-split [] dir e = cc
parent_of-split (c ∷ path) dir e = elim (Option-cases (parent_of path)) [
  | inl last ↦
      let slash : c ≡ b'/' = ground arith in
      let top : [] ≡ dir = ground arith in (path, rw (slash, ← top) refl)
  | inr (above, q) ↦
      let (rest, split) = parent_of-split path above q in
      let same : c ∷ above ≡ dir = ground arith in (rest, rw (← same) (ap (◌∷◌ c) split))
]

mkdir_loop-IsAncestor :
    (mkdir : Bytes → Bool) (dir made path : Bytes)
    → IsAncestor path (made ++ dir)
    → All (IsAncestor path) (mkdir_loop mkdir made dir).0
unfolding mkdir_loop
mkdir_loop-IsAncestor mkdir [] made path (rest, e) = ((rest, rw append-nil at e), tt)
mkdir_loop-IsAncestor mkdir (c ∷ dir) made path (rest, e) =
    let deeper =
      mkdir_loop-IsAncestor mkdir dir (made ++ c ∷ []) path
        (rest, rw (append_assoc made (c ∷ []) dir) e) in
    let here : path ≡ made ++ c ∷ (dir ++ b'/' ∷ rest) =
      e ∙ append_assoc made (c ∷ dir) (b'/' ∷ rest) in
    elim (Bool-cases (c == b'/')) [
      | inl slash ↦
          let is_slash : c ≡ b'/' = ground arith in
          let own : IsAncestor path made =
            (dir ++ b'/' ∷ rest, here ∙ ap (λ d. made ++ d ∷ (dir ++ b'/' ∷ rest)) is_slash) in
          rw slash (elim (Bool-cases (mkdir made)) [
            | inl done ↦ rw done (own, deeper)
            | inr failed ↦ rw failed (own, tt)
          ])
      | inr plain ↦ rw plain deeper
    ]

make_dirs-IsAncestor :
    (mkdir : Bytes → Bool) (dir : Option Bytes) (path : Bytes)
    → parent_of path ≡ dir
    → All (IsAncestor path) (make_dirs mkdir dir).0
unfolding make_dirs
make_dirs-IsAncestor mkdir none path e = tt
make_dirs-IsAncestor mkdir (some []) path e = tt
make_dirs-IsAncestor mkdir (some (c ∷ dir)) path e =
    mkdir_loop-IsAncestor mkdir dir (c ∷ []) path (parent_of-split path (c ∷ dir) e)

-- Only directories above the file are made.
pub ensure_parent_dir-IsAncestor :
    (mkdir : Bytes → Bool) (path : Bytes) → All (IsAncestor path) (ensure_parent_dir mkdir path).0
unfolding ensure_parent_dir
ensure_parent_dir-IsAncestor mkdir [] = tt
ensure_parent_dir-IsAncestor mkdir (c ∷ path) = elim (Bool-cases (leb 4096 (length (c ∷ path)))) [
  | inl long ↦ rw long tt
  | inr short ↦ rw short (make_dirs-IsAncestor mkdir (parent_of (c ∷ path)) (c ∷ path) refl)
]
