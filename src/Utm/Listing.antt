-- ===== src/Utm/Listing.antt =====
-- `utm_list_vms` of src/utm_backend.c reads back a list of machines as `utmctl list` prints it.
use qemu_snapshot_web_manage.Prelude.{
  ℕ, ◌≡◌, ◌≢◌, ◌≤◌, refl, true, false, some, List, [], ◌∷◌, ◌++◌, ◌==◌, arith, map, All, All-mono,
  All-append, Without, Bytes, codes, length, take-all,
}
use qemu_snapshot_web_manage.Backend.{VmInfo}
use qemu_snapshot_web_manage.Utm.{
  System, map_status, parse_line, parse_lines, parse_vms, utmctl_path, run_cmd, utm_list_vms,
}
use qemu_snapshot_web_manage.Utm.Lines.{
  with_byte, tokens, is_blank, skip_blanks, word, behind_word, trim,
}

-- A line of the list, with the blanks between its fields.
pub record Row : Type 0 where
  pub uuid : Bytes
  pub gap : Bytes
  pub status : Bytes
  pub second_gap : Bytes
  pub name : Bytes

abbrev IsPlain : ℕ → Type 0
IsPlain c = (is_blank c ≡ false) × (c ≢ b'\n')

abbrev pub IsWord : Bytes → Type 0
IsWord [] = ⊥
IsWord (c ∷ s) = All IsPlain (c ∷ s)

abbrev pub IsGap : Bytes → Type 0
IsGap [] = ⊥
IsGap (c ∷ s) = All (λ b. is_blank b ≡ true) (c ∷ s)

abbrev EndsPlain : Bytes → Type 0
EndsPlain [] = ⊥
EndsPlain (c ∷ s) = elim s [ [] ↦ (is_blank c ≡ false) × (c ≢ b'\r') | d ∷ r ↦ EndsPlain s ]

-- A name may hold blanks, but not at its ends.
abbrev pub IsName : Bytes → Type 0
IsName [] = ⊥
IsName (c ∷ s) = (is_blank c ≡ false) × Without b'\n' (c ∷ s) × EndsPlain (c ∷ s)

pub record IsRow (r : Row) : Type 0 where
  pub uuid : IsWord r.uuid
  pub gap : IsGap r.gap
  pub status : IsWord r.status
  pub second_gap : IsGap r.second_gap
  pub name : IsName r.name

abbrev pub row_text : Row → Bytes
row_text r = r.uuid ++ (r.gap ++ (r.status ++ (r.second_gap ++ r.name)))

abbrev pub rows_text : List Row → Bytes
rows_text [] = []
rows_text (r ∷ rows) = row_text r ++ b'\n' ∷ rows_text rows

-- The machine of a line.
abbrev pub vm_in : Row → VmInfo
vm_in r = record {
  name = r.name;
  uuid = r.uuid;
  state = map_status r.status;
  vcpus = 0;
  memory_kb = 0;
}

with_byte-newline :
    (c : ℕ) (s : Bytes) (lines : List Bytes) → with_byte c (b'\n' ∷ s) lines ≡ (c ∷ []) ∷ lines
with_byte-newline c s [] = refl
with_byte-newline c s (line ∷ lines) = refl

tokens-line :
    (c : ℕ) (s rest : Bytes)
    → Without b'\n' (c ∷ s)
    → tokens ((c ∷ s) ++ b'\n' ∷ rest) ≡ (c ∷ s) ∷ tokens rest
unfolding tokens
tokens-line c [] rest h =
    let inner : (c == b'\n') ≡ false = ground (arith, h.0) in
    rw inner (with_byte-newline c rest (tokens rest))
tokens-line c (d ∷ s) rest h =
    let inner : (c == b'\n') ≡ false = ground (arith, h.0) in
    let next : (d == b'\n') ≡ false = ground (arith, h.1.0) in
    rw (inner, tokens-line d s rest h.1) (rw next refl)

word-append :
    (u : Bytes) (b : ℕ) (r : Bytes) → All IsPlain u → is_blank b ≡ true → word (u ++ b ∷ r) ≡ u
unfolding word
word-append [] b r h blank = rw blank refl
word-append (c ∷ u) b r h blank = rw (h.0.0, word-append u b r h.1 blank) refl

behind_word-append :
    (u : Bytes) (b : ℕ) (r : Bytes)
    → All IsPlain u
    → is_blank b ≡ true
    → behind_word (u ++ b ∷ r) ≡ r
unfolding behind_word
behind_word-append [] b r h blank = rw blank refl
behind_word-append (c ∷ u) b r h blank = rw (h.0.0, behind_word-append u b r h.1 blank) refl

skip_blanks-append :
    (g : Bytes) (c : ℕ) (r : Bytes)
    → All (λ b. is_blank b ≡ true) g
    → is_blank c ≡ false
    → skip_blanks (g ++ c ∷ r) ≡ c ∷ r
unfolding skip_blanks
skip_blanks-append [] c r h plain = rw plain refl
skip_blanks-append (b ∷ g) c r h plain = rw (h.0, skip_blanks-append g c r h.1 plain) refl

trim-EndsPlain : (s : Bytes) → EndsPlain s → trim s ≡ s
unfolding trim
trim-EndsPlain [] h = absurd h
trim-EndsPlain (c ∷ []) h =
    let no_return : (c == b'\r') ≡ false = ground (arith, h.1) in rw (h.0, no_return) refl
trim-EndsPlain (c ∷ d ∷ s) h = rw (trim-EndsPlain (d ∷ s) h) refl

parse_line-fields :
    (uuid gap status second_gap name : Bytes)
    → IsWord uuid
    → IsGap gap
    → IsWord status
    → IsGap second_gap
    → IsName name
    → parse_line (uuid ++ (gap ++ (status ++ (second_gap ++ name))))
      ≡ some
          (record { name = name; uuid = uuid; state = map_status status; vcpus = 0; memory_kb = 0 })
unfolding parse_line
parse_line-fields (a ∷ u) (b ∷ g) (c ∷ s) (d ∷ k) (e ∷ n) h1 h2 h3 h4 h5 =
    let named = (d ∷ k) ++ e ∷ n in
    let stated = (c ∷ s) ++ named in
    let line = (a ∷ u) ++ ((b ∷ g) ++ stated) in
    let at_uuid : skip_blanks line ≡ line =
      skip_blanks-append [] a (u ++ ((b ∷ g) ++ stated)) tt h1.0.0 in
    let at_status : skip_blanks (g ++ stated) ≡ stated =
      skip_blanks-append g c (s ++ named) h2.1 h3.0.0 in
    let at_name : skip_blanks (k ++ e ∷ n) ≡ e ∷ n = skip_blanks-append k e n h4.1 h5.0 in
    let uuid_word = word-append (a ∷ u) b (g ++ stated) h1 h2.0 in
    let uuid_behind = behind_word-append (a ∷ u) b (g ++ stated) h1 h2.0 in
    let status_word = word-append (c ∷ s) d (k ++ e ∷ n) h3 h4.0 in
    let status_behind = behind_word-append (c ∷ s) d (k ++ e ∷ n) h3 h4.0 in
    let whole_name = trim-EndsPlain (e ∷ n) h5.2 in
    rw (at_uuid, uuid_word, uuid_behind, at_status, status_word, status_behind, at_name, whole_name)
      refl
parse_line-fields [] gap status second_gap name h1 h2 h3 h4 h5 = absurd h1
parse_line-fields (a ∷ u) [] status second_gap name h1 h2 h3 h4 h5 = absurd h2
parse_line-fields (a ∷ u) (b ∷ g) [] second_gap name h1 h2 h3 h4 h5 = absurd h3
parse_line-fields (a ∷ u) (b ∷ g) (c ∷ s) [] name h1 h2 h3 h4 h5 = absurd h4
parse_line-fields (a ∷ u) (b ∷ g) (c ∷ s) (d ∷ k) [] h1 h2 h3 h4 h5 = absurd h5

parse_line-row : (r : Row) → IsRow r → parse_line (row_text r) ≡ some (vm_in r)
parse_line-row r h =
    parse_line-fields r.uuid r.gap r.status r.second_gap r.name h.uuid h.gap h.status h.second_gap
      h.name

IsWord-Without : (s : Bytes) → IsWord s → Without b'\n' s
IsWord-Without [] h = tt
IsWord-Without (c ∷ s) h = (h.0.1, All-mono IsPlain (λ b. b ≢ b'\n') s (λ b plain. plain.1) h.1)

blank-ne : (b : ℕ) → is_blank b ≡ true → b ≢ b'\n'
blank-ne b h e = ground arith

IsGap-Without : (s : Bytes) → IsGap s → Without b'\n' s
IsGap-Without [] h = tt
IsGap-Without (c ∷ s) h =
    (blank-ne c h.0, All-mono (λ b. is_blank b ≡ true) (λ b. b ≢ b'\n') s blank-ne h.1)

IsName-Without : (s : Bytes) → IsName s → Without b'\n' s
IsName-Without [] h = tt
IsName-Without (c ∷ s) h = h.1

row_text-Without : (r : Row) → IsRow r → Without b'\n' (row_text r)
row_text-Without r h =
    let free : ℕ → Type 0 = λ c. c ≢ b'\n' in
    All-append free r.uuid _ (IsWord-Without r.uuid h.uuid) (
      All-append free r.gap _ (IsGap-Without r.gap h.gap) (
        All-append free r.status _ (IsWord-Without r.status h.status) (
          All-append free r.second_gap r.name (IsGap-Without r.second_gap h.second_gap)
            (IsName-Without r.name h.name))))

tokens-nonempty :
    (line rest : Bytes)
    → line ≢ []
    → Without b'\n' line
    → tokens (line ++ b'\n' ∷ rest) ≡ line ∷ tokens rest
tokens-nonempty [] rest ne h = absurd (ne refl)
tokens-nonempty (c ∷ s) rest ne h = tokens-line c s rest h

append-nonempty : (a b : Bytes) → IsWord a → a ++ b ≢ []
append-nonempty [] b h e = absurd h
append-nonempty (c ∷ a) b h e = cc

parse_lines-rows :
    (rows : List Row) → All IsRow rows → parse_lines (tokens (rows_text rows)) ≡ map vm_in rows
unfolding parse_lines tokens
parse_lines-rows [] h = refl
parse_lines-rows (r ∷ rows) h =
    let line : tokens (rows_text (r ∷ rows)) ≡ row_text r ∷ tokens (rows_text rows) =
      tokens-nonempty (row_text r) (rows_text rows) (append-nonempty r.uuid _ h.0.uuid)
        (row_text-Without r h.0) in
    rw line (rw (parse_line-row r h.0, parse_lines-rows rows h.1) refl)

parse_vms-rows :
    (header : Bytes) (rows : List Row)
    → header ≢ []
    → Without b'\n' header
    → All IsRow rows
    → parse_vms (header ++ b'\n' ∷ rows_text rows) ≡ map vm_in rows
unfolding parse_vms
parse_vms-rows header rows ne h rs =
    rw (tokens-nonempty header (rows_text rows) ne h) (parse_lines-rows rows rs)

module _ {W : Type 0} (sys : System W) where
  -- Where `utmctl list` prints a header and a line for each machine, its UUID, its status and its name
  -- with blanks between them, at most 8191 bytes in all, and ends with status 0, the machines are listed in
  -- order, with these names and UUIDs and the state that the status stands for. A name may hold blanks, but
  -- not at its ends.
  pub utm_list_vms-rows :
      (path header : Bytes) (rows : List Row) (w w' : W)
      → utmctl_path sys ≡ some path
      → sys.exec (path ∷ codes "list" ∷ []) w
        ≡ (some (header ++ b'\n' ∷ rows_text rows, some 0), w')
      → length (header ++ b'\n' ∷ rows_text rows) ≤ 8191
      → header ≢ []
      → Without b'\n' header
      → All IsRow rows
      → utm_list_vms sys w ≡ (some (map vm_in rows), w')
  unfolding utm_list_vms run_cmd
  utm_list_vms-rows path header rows w w' found ran short ne h rs =
      let whole = take-all 8191 (header ++ b'\n' ∷ rows_text rows) short in
      rw (found, ran, whole, parse_vms-rows header rows ne h rs) refl
