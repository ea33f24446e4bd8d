-- ===== src/Libvirt/Guest/Mounts/Lines.antt =====
-- The loop of `lv_check_mount_status` in src/libvirt_backend.c against the lines of the output.
use qemu_snapshot_web_manage.Prelude.{
  ℕ, zero, suc, ◌+◌, ◌==◌, ◌<◌, ◌≤◌, ◌≡◌, refl, sym, ap₂, Bool, true, false, ◌&&◌, Option, none,
  some, List, [], ◌∷◌, map, if◌then◌else◌, Bytes, length, drop, before, strchr, is_prefix,
  Bool-cases, Option-cases, inl, inr, arith,
}
use mathlib.Core.Option.{some-injective}
use qemu_snapshot_web_manage.Prelude.Int.{ℤ, pos}
use qemu_snapshot_web_manage.Backend.{SharedFolder}
use qemu_snapshot_web_manage.Libvirt.Guest.Mounts.{
  is_space, skip_indent, line_length, is_entry, in_next, is_mounted, mount_point, mark_mounted,
  mounted_at, read_mounts,
}

-- The lines of a text, without their ends.
abbrev in_first_line : ℕ → List Bytes → List Bytes
in_first_line c [] = (c ∷ []) ∷ []
in_first_line c (line ∷ rest) = (c ∷ line) ∷ rest

unfoldable pub split_lines : Bytes → List Bytes
split_lines [] = [] ∷ []
split_lines (c ∷ s) = if c == b'\n' then [] ∷ split_lines s else in_first_line c (split_lines s)

abbrev ends_word : Bytes → Bool
ends_word [] = true
ends_word (c ∷ s) = is_space c

-- The line is the mount point, or starts with it and a blank.
abbrev has_word : Bytes → Bytes → Bool
has_word expected line = is_prefix line expected && ends_word (drop (length expected) line)

unfoldable pub shows : Bytes → Bytes → Bool
shows expected line = has_word expected (skip_indent line)

unfoldable pub any_shows : Bytes → List Bytes → Bool
any_shows expected [] = false
any_shows expected (line ∷ rest) = if shows expected line then true else any_shows expected rest

before-skip_indent : (s : Bytes) → before b'\n' (skip_indent s) ≡ skip_indent (before b'\n' s)
unfolding before skip_indent
before-skip_indent [] = refl
before-skip_indent (c ∷ s) = ground (arith, before-skip_indent s)

strchr-skip_indent : (s : Bytes) → strchr (skip_indent s) b'\n' ≡ strchr s b'\n'
unfolding strchr skip_indent
strchr-skip_indent [] = refl
strchr-skip_indent (c ∷ s) = ground (arith, strchr-skip_indent s)

split_rest : Option Bytes → List Bytes
split_rest none = []
split_rest (some eol) = split_lines (drop 1 eol)

split_lines-before : (s : Bytes) → split_lines s ≡ before b'\n' s ∷ split_rest (strchr s b'\n')
unfolding split_lines before strchr split_rest
split_lines-before [] = refl
split_lines-before (c ∷ s) = ground (arith, split_lines-before s)

length-strchr :
    (s eol : Bytes) → strchr s b'\n' ≡ some eol → length s ≡ length (before b'\n' s) + length eol
unfolding strchr before
length-strchr [] eol h = ground arith
length-strchr (c ∷ s) eol h = ground (arith, length-strchr s eol)

length-before-none : (s : Bytes) → strchr s b'\n' ≡ none → length s ≡ length (before b'\n' s)
unfolding strchr before
length-before-none [] h = refl
length-before-none (c ∷ s) h = ground (arith, length-before-none s)

line_length-before : (s : Bytes) → line_length s (strchr s b'\n') ≡ length (before b'\n' s)
line_length-before s = elim (Option-cases (strchr s b'\n')) [
  | inl last ↦ rw last (length-before-none s last)
  | inr (eol, found) ↦ let size = length-strchr s eol found in rw found (omega (arith, size))
]

-- The comparison within the text is one within its first line.
is_entry-before :
    (expected s : Bytes)
    → is_entry expected s (length (before b'\n' s)) ≡ has_word expected (before b'\n' s)
unfolding is_entry before is_prefix
is_entry-before [] [] = refl
is_entry-before [] (c ∷ s) = ground arith
is_entry-before (d ∷ expected) [] = ground arith
is_entry-before (d ∷ expected) (c ∷ s) = ground (arith, is_entry-before expected s)

length-skip_indent-le : (s : Bytes) → length (skip_indent s) ≤ length s
unfolding skip_indent
length-skip_indent-le [] = omega arith
length-skip_indent-le (c ∷ s) = ground (arith, length-skip_indent-le s)

any_shows-none : (d : ℕ) (expected : Bytes) → any_shows (d ∷ expected) (split_lines []) ≡ false
unfolding any_shows split_lines shows skip_indent is_prefix
any_shows-none d expected = refl

behind-shorter : (s eol : Bytes) → strchr s b'\n' ≡ some eol → length (drop 1 eol) < length s
unfolding strchr
behind-shorter [] eol h = ground arith
behind-shorter (c ∷ s) eol h = elim (Bool-cases (c == b'\n')) [
  | inl hit ↦
      let here : some (c ∷ s) ≡ some eol = rw (hit, strchr) at h in
      rw (← some-injective (c ∷ s) eol here) (omega arith)
  | inr miss ↦ let shorter = behind-shorter s eol (rw (miss, strchr) at h) in omega (arith, shorter)
]

-- One round: the first line, and what the loop finds behind it.
round :
    (expected text : Bytes) (again : Bytes → Bool)
    → ((eol : Bytes)
        → strchr text b'\n' ≡ some eol
        → again (drop 1 eol) ≡ any_shows expected (split_lines (drop 1 eol)))
    → (let line = skip_indent text in
        let eol = strchr line b'\n' in
        let later = in_next again eol in
        if is_entry expected line (line_length line eol) then true else later)
      ≡ any_shows expected (split_lines text)
unfolding any_shows shows split_rest
round expected text again h =
    let line = skip_indent text in
    rw
      (
        line_length-before line,
        is_entry-before expected line,
        before-skip_indent text,
        strchr-skip_indent text,
        split_lines-before text,
      )
      (elim (Option-cases (strchr text b'\n')) [
        | inl last ↦ rw last refl
        | inr (eol, found) ↦ rw (found, h eol found) refl
      ])

is_mounted-lines :
    (fuel d : ℕ) (expected text : Bytes)
    → length text < fuel
    → is_mounted fuel (d ∷ expected) text ≡ any_shows (d ∷ expected) (split_lines text)
unfolding is_mounted
is_mounted-lines zero d expected text h = absurd (omega arith)
is_mounted-lines (suc fuel) d expected [] h = sym (any_shows-none d expected)
is_mounted-lines (suc fuel) d expected (c ∷ text) h =
    round (d ∷ expected) (c ∷ text) (is_mounted fuel (d ∷ expected)) (λ eol found.
      is_mounted-lines fuel d expected (drop 1 eol)
        (let shorter = behind-shorter (c ∷ text) eol found in omega (arith, shorter)))

-- The state of a folder by the lines of `findmnt`: 1 where one of them starts with its mount point.
abbrev shown_as : Bytes → Option Bytes → ℤ
shown_as msg none = pos 0
shown_as msg (some mount_tag) =
    if any_shows (mount_point mount_tag) (split_lines msg) then pos 1 else pos 0

abbrev pub shown_in : Bytes → SharedFolder → SharedFolder
shown_in msg f = record f { mounted = shown_as msg f.mount_tag }

mounted_at-shown_as : (msg : Bytes) (tag : Option Bytes) → mounted_at msg tag ≡ shown_as msg tag
unfolding mount_point
mounted_at-shown_as msg none = refl
mounted_at-shown_as msg (some tag) =
    rw (is_mounted-lines (suc (length msg)) b'/' (drop 1 (mount_point tag)) msg (omega arith)) refl

mark_mounted-shown_in : (msg : Bytes) (f : SharedFolder) → mark_mounted msg f ≡ shown_in msg f
unfolding mark_mounted
mark_mounted-shown_in msg f = rw (mounted_at-shown_as msg f.mount_tag) refl

-- Where `findmnt` has printed `msg` in the guest, a folder with a mount tag counts as mounted exactly if
-- some line of `msg`, past the blanks in front, is its mount point or starts with it and a blank. Each
-- other folder counts as not mounted; nothing else of the folders changes, and none is lost.
pub read_mounts-shown_in :
    (msg : Bytes) (folders : List SharedFolder)
    → read_mounts (record { success = true; message = some msg }) folders
      ≡ map (shown_in msg) folders
unfolding read_mounts
read_mounts-shown_in msg [] = refl
read_mounts-shown_in msg (f ∷ folders) =
    ap₂ ◌∷◌ (mark_mounted-shown_in msg f) (read_mounts-shown_in msg folders)
