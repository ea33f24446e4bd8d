-- ===== src/Libvirt/Orphans.antt =====
-- `qcow2_snapshot_names`, `lv_scan_orphan_snapshots` and `lv_cleanup_orphan_snapshots` of
-- src/libvirt_backend.c. libvirt and `qemu-img` enter as parameters: what libvirt says of the machine
-- (an entry of its names that it has not filled in is `none`), and the output of `qemu-img snapshot -l`
-- for each disk, where it can be run. The output for a disk is read before anything is deleted from it,
-- so that it is a function of the disk alone where no file stands twice among the disks. The commands
-- that delete are run by `system` of `Libvirt`.
pub mod Scan
pub mod Fuel
use qemu_snapshot_web_manage.Prelude.{
  ℕ, zero, suc, ◌+◌, Bool, true, false, not, ◌&&◌, ◌||◌, Option, none, some, List, [], ◌∷◌, ◌++◌,
  ◌==◌, leb, if◌then◌else◌, Bytes, codes, ◌-◌, strcmp_eq, is_prefix, length, take, snprintf_s,
}
use qemu_snapshot_web_manage.Snapshot.{str_eq}
use qemu_snapshot_web_manage.Libvirt.Disks.{get_domain_disk_paths}
use qemu_snapshot_web_manage.Backend.{Call}
use qemu_snapshot_web_manage.Libvirt.Session.{Libvirt, Session, after, with_domain}
use mathlib.Core.Option

abbrev pub is_digit : ℕ → Bool
is_digit c = leb b'0' c && leb c b'9'

abbrev pub skip_spaces : Bytes → Bytes
skip_spaces [] = []
skip_spaces (c ∷ s) = if c == b' ' then skip_spaces s else c ∷ s

abbrev pub skip_digits : Bytes → Bytes
skip_digits [] = []
skip_digits (c ∷ s) = if is_digit c then skip_digits s else c ∷ s

-- The decimals of a size, behind its digits.
abbrev pub skip_decimals : Bytes → Bytes
skip_decimals [] = []
skip_decimals (c ∷ s) = if c == b'.' then skip_digits s else c ∷ s

-- Whether a unit stands behind the blank after the number.
abbrev pub has_unit : Bytes → Bool
has_unit [] = false
has_unit (c ∷ after) =
    c == b' '
    && (is_prefix after (codes "B ")
        || is_prefix after (codes "KiB ")
        || is_prefix after (codes "MiB ")
        || is_prefix after (codes "GiB "))

-- The loop that keeps the last place where a number with a unit begins, with fuel for the rounds.
unfoldable pub size_loop : ℕ → Bytes → Option Bytes → Option Bytes
size_loop zero q size_ptr = size_ptr
size_loop (suc fuel) [] size_ptr = size_ptr
size_loop (suc fuel) (c ∷ q) size_ptr =
    let behind = skip_decimals (skip_digits (c ∷ q)) in
    size_loop fuel (if is_digit c then behind else q)
      (if is_digit c && has_unit behind then some (c ∷ q) else size_ptr)

-- `while (tag_len > 0 && tag_start[tag_len - 1] == ' ') tag_len--`
unfoldable pub trim_spaces : Bytes → Bytes
trim_spaces [] = []
trim_spaces (c ∷ s) = elim (trim_spaces s) [
  | [] ↦ if c == b' ' then [] else c ∷ []
  | d ∷ r ↦ c ∷ d ∷ r
]

abbrev nonempty_tag : Bytes → Option Bytes
nonempty_tag [] = none
nonempty_tag (c ∷ tag) = some (c ∷ tag)

abbrev tag_before : Bytes → Option Bytes → Option Bytes
tag_before tag_start none = none
tag_before tag_start (some size_ptr) =
    nonempty_tag (trim_spaces (take (length tag_start - length size_ptr) tag_start))

-- The size is searched from behind the ID; each round takes at least one byte.
unfoldable pub tag_of : Bytes → Option Bytes
tag_of [] = none
tag_of (c ∷ p) =
    let tag_start = skip_spaces (skip_digits (c ∷ p)) in
    if is_digit c
    then tag_before tag_start (size_loop (suc (length tag_start)) tag_start none)
    else none

-- `fgets`: up to `room` bytes, ending behind a newline, and the rest.
unfoldable pub fgets : ℕ → Bytes → Bytes × Bytes
fgets zero s = ([], s)
fgets (suc room) [] = ([], [])
fgets (suc room) (c ∷ s) =
    let (line, rest) = fgets room s in if c == b'\n' then (c ∷ [], s) else (c ∷ line, rest)

abbrev pub add_tag : Option Bytes → List Bytes → List Bytes
add_tag none names = names
add_tag (some tag) names = tag ∷ names

-- The loop over the lines; `line` is 1024 bytes.
unfoldable pub read_names : ℕ → Bytes → List Bytes
read_names zero output = []
read_names (suc fuel) [] = []
read_names (suc fuel) (c ∷ output) =
    let (line, rest) = fgets 1023 (c ∷ output) in
    add_tag (tag_of (skip_spaces line)) (read_names fuel rest)

-- `none` where the command cannot be run. Each line has at least one byte.
unfoldable pub qcow2_snapshot_names : (Bytes → Option Bytes) → Bytes → Option (List Bytes)
qcow2_snapshot_names qemu_img disk_path =
    Option.map (λ output. read_names (suc (length output)) output) (qemu_img disk_path)

-- The names of libvirt, where one is found.
unfoldable pub is_known : List (Option Bytes) → Bytes → Bool
is_known [] name = false
is_known (l ∷ lv_names) name = str_eq (some name) l || is_known lv_names name

unfoldable pub is_listed : List Bytes → Bytes → Bool
is_listed [] name = false
is_listed (o ∷ orphans) name = strcmp_eq o name || is_listed orphans name

-- One name of a disk, in the scan: it is added if libvirt does not know it and no disk before had it.
unfoldable pub scan_name : List (Option Bytes) → List Bytes → Bytes → List Bytes
scan_name lv_names orphans name =
    if is_known lv_names name
    then orphans
    else if is_listed orphans name
    then orphans
    else orphans ++ name ∷ []

unfoldable pub scan_names : List (Option Bytes) → List Bytes → List Bytes → List Bytes
scan_names lv_names orphans [] = orphans
scan_names lv_names orphans (name ∷ names) =
    scan_names lv_names (scan_name lv_names orphans name) names

-- The names on one disk, `none` where they cannot be had: the disk is passed over.
unfoldable pub scan_disk : List (Option Bytes) → List Bytes → Option (List Bytes) → List Bytes
scan_disk lv_names orphans none = orphans
scan_disk lv_names orphans (some names) = scan_names lv_names orphans names

unfoldable pub scan_disks :
    (Bytes → Option Bytes) → List (Option Bytes) → List Bytes → List Bytes → List Bytes
scan_disks qemu_img lv_names orphans [] = orphans
scan_disks qemu_img lv_names orphans (path ∷ disk_paths) =
    scan_disks qemu_img lv_names (scan_disk lv_names orphans (qcow2_snapshot_names qemu_img path))
      disk_paths

-- What libvirt says of the machine: it is shut off, `virDomainSnapshotNum` with the names that are
-- listed, `none` where it fails, and the XML of the machine.
pub record Domain : Type 0 where
  pub is_shutoff : Bool
  pub listed : Option (List (Option Bytes))
  pub xml : Option Bytes

-- With no list the loops over `lv_names` make no round.
abbrev pub names_of : Option (List (Option Bytes)) → List (Option Bytes)
names_of none = []
names_of (some lv_names) = lv_names

-- The command that deletes a snapshot, in an array of `PATH_MAX + 256` bytes.
unfoldable pub delete_command : Bytes → Bytes → Bytes
delete_command name path = snprintf_s 4352 (
    codes "qemu-img snapshot -d "
    ++ b'\'' ∷ (name ++ b'\'' ∷ b' ' ∷ b'\'' ∷ (path ++ codes "' 2>&1")))

-- The deletions that the cleanup runs, in order.
unfoldable pub clean_names : List (Option Bytes) → Bytes → List Bytes → List Bytes
clean_names lv_names path [] = []
clean_names lv_names path (name ∷ names) =
    let rest = clean_names lv_names path names in
    if is_known lv_names name then rest else delete_command name path ∷ rest

unfoldable pub clean_disk : List (Option Bytes) → Bytes → Option (List Bytes) → List Bytes
clean_disk lv_names path none = []
clean_disk lv_names path (some names) = clean_names lv_names path names

unfoldable pub clean_disks : (Bytes → Option Bytes) → List (Option Bytes) → List Bytes → List Bytes
clean_disks qemu_img lv_names [] = []
clean_disks qemu_img lv_names (path ∷ disk_paths) =
    clean_disk lv_names path (qcow2_snapshot_names qemu_img path)
    ++ clean_disks qemu_img lv_names disk_paths

module _ {W : Type 0} (lv : Libvirt W) (domain_of : Bytes → Call W Domain)
    (qemu_img : Bytes → Option Bytes) where
  abbrev pub scan_domain : Domain → Session W → Option (List Bytes) × Session W
  scan_domain dom s = (
    some (
        if dom.is_shutoff
        then scan_disks qemu_img (names_of dom.listed) [] (get_domain_disk_paths dom.xml)
        else []),
    s,
  )

  abbrev pub scan_on : Bytes → Session W → Option (List Bytes) × Session W
  scan_on vm_name s = let (dom, w) = domain_of vm_name s.libvirt in scan_domain dom (after s w)

  -- `none` stands for the result -1.
  unfoldable pub lv_scan_orphan_snapshots : Bytes → Session W → Option (List Bytes) × Session W
  lv_scan_orphan_snapshots vm_name = with_domain lv vm_name none (scan_on vm_name)

  abbrev is_done : Option ℕ → Bool
  is_done none = true
  is_done (some status) = false

  -- The commands are run, and those that succeed are counted: `total_cleaned`.
  unfoldable pub run_commands : List Bytes → W → ℕ × W
  run_commands [] w = (0, w)
  run_commands (cmd ∷ commands) w =
      let (outcome, w1) = lv.system cmd w in
      let (count, w2) = run_commands commands w1 in
      (if is_done outcome then suc count else count, w2)

  abbrev pub clean_domain : Domain → Session W → (List Bytes × Option ℕ) × Session W
  clean_domain dom s =
      let commands = clean_disks qemu_img (names_of dom.listed) (get_domain_disk_paths dom.xml) in
      let (count, w) = run_commands commands s.libvirt in
      if dom.is_shutoff then ((commands, some count), after s w) else (
        ([], none),
        record s { last_error = codes "VM must be shut off to clean orphan snapshots" },
      )

  abbrev pub clean_on : Bytes → Session W → (List Bytes × Option ℕ) × Session W
  clean_on vm_name s = let (dom, w) = domain_of vm_name s.libvirt in clean_domain dom (after s w)

  -- The commands that are run, and the result, `none` for -1.
  unfoldable pub lv_cleanup_orphan_snapshots :
      Bytes → Session W → (List Bytes × Option ℕ) × Session W
  lv_cleanup_orphan_snapshots vm_name = with_domain lv vm_name ([], none) (clean_on vm_name)
