-- ===== src/Libvirt/Orphans/Scan.antt =====
-- The scan for orphaned snapshots and the cleanup agree, and neither touches what libvirt lists.
use qemu_snapshot_web_manage.Prelude.{
  ℕ, zero, suc, ◌+◌, ◌-◌, ◌≤◌, ◌≡◌, ◌≢◌, refl, sym, ap, ap₂, map, ◌∙◌, inl, inr, Bool, true, false,
  ◌||◌, Option, none, some, List, [], ◌∷◌, ◌++◌, arith, All, All-append, Bytes, codes, strcmp_eq,
  strcmp_eq_iff, strcmp_eq_self, Bool-cases, length, take, before, strchr, Without, strchr-append,
  before-append,
}
use qemu_snapshot_web_manage.Backend.{Call}
use qemu_snapshot_web_manage.Libvirt.Disks.{get_domain_disk_paths}
use qemu_snapshot_web_manage.Libvirt.Session.{Libvirt, Session, on_domain, lv_lookup_domain_locked}
use mathlib.Core.Option.{some-injective}
use qemu_snapshot_web_manage.Libvirt.Orphans.{
  Domain, names_of, is_known, is_listed, scan_name, scan_names, scan_disk, scan_disks, scan_on,
  clean_on, lv_scan_orphan_snapshots, qcow2_snapshot_names, clean_names, clean_disk, clean_disks,
  delete_command, lv_cleanup_orphan_snapshots,
}

abbrev behind_quote : Option Bytes → Bytes
behind_quote none = []
behind_quote (some []) = []
behind_quote (some (c ∷ s)) = s

-- What stands between the first two apostrophes of a command: the text that a shell passes on as the
-- name of the snapshot.
abbrev pub quoted : Bytes → Bytes
quoted cmd = before b'\'' (behind_quote (strchr cmd b'\''))

-- Whether some command deletes a snapshot with the name.
abbrev pub deletes : List Bytes → Bytes → Bool
deletes [] name = false
deletes (cmd ∷ commands) name = strcmp_eq (quoted cmd) name || deletes commands name

deletes-append :
    (xs ys : List Bytes) (name : Bytes)
    → deletes (xs ++ ys) name ≡ deletes xs name || deletes ys name
deletes-append [] ys name = refl
deletes-append (cmd ∷ xs) ys name = ground (arith, deletes-append xs ys name)

-- A name that quotation by apostrophes keeps as it is, and that the array of the command has room for.
abbrev pub IsPlain : Bytes → Type 0
IsPlain name = Without b'\'' name × (length name ≤ 1023)

take-past :
    (n : ℕ) (xs ys : Bytes) → length xs ≤ n → take n (xs ++ ys) ≡ xs ++ take (n - length xs) ys
take-past n [] ys h = let same : n - 0 ≡ n = omega arith in rw same refl
take-past zero (x ∷ xs) ys h = absurd (omega (arith, h))
take-past (suc n) (x ∷ xs) ys h =
    let same : suc n - suc (length xs) ≡ n - length xs = omega arith in
    rw same (ap (◌∷◌ x) (take-past n xs ys (omega (arith, h))))

quoted-take :
    (n : ℕ) (start name rest : Bytes)
    → Without b'\'' start
    → Without b'\'' name
    → length start + length name + 2 ≤ n
    → quoted (take n (start ++ b'\'' ∷ (name ++ b'\'' ∷ rest))) ≡ name
quoted-take n start name rest plain_start plain room =
    let k = n - length start - length name - 2 in
    let behind_start : n - length start ≡ suc (suc (k + length name)) = omega (arith, room) in
    let behind_name : suc (k + length name) - length name ≡ suc k = omega arith in
    rw
      (
        take-past n start (b'\'' ∷ (name ++ b'\'' ∷ rest)) (omega (arith, room)),
        behind_start,
        take-past (suc (k + length name)) name (b'\'' ∷ rest) (omega arith),
        behind_name,
        strchr-append b'\'' start (name ++ b'\'' ∷ take k rest) plain_start,
      )
      (before-append b'\'' name (take k rest) plain)

quoted-delete_command :
    (name path : Bytes) → IsPlain name → quoted (delete_command name path) ≡ name
unfolding delete_command
quoted-delete_command name path plain =
    quoted-take 4351 (codes "qemu-img snapshot -d ") name (b' ' ∷ b'\'' ∷ (path ++ codes "' 2>&1"))
      (ground arith) plain.0 (omega (arith, plain.1))

is_listed-append :
    (xs ys : List Bytes) (name : Bytes)
    → is_listed (xs ++ ys) name ≡ is_listed xs name || is_listed ys name
unfolding is_listed
is_listed-append [] ys name = refl
is_listed-append (x ∷ xs) ys name = ground (arith, is_listed-append xs ys name)

or_false : (a : Bool) → a || false ≡ a
or_false true = refl
or_false false = refl

or_assoc : (a b c : Bool) → (a || b) || c ≡ a || (b || c)
or_assoc true b c = refl
or_assoc false b c = refl

or_absorbed : (a b : Bool) → (b ≡ true → a ≡ true) → a ≡ a || (b || false)
or_absorbed true b h = refl
or_absorbed false true h = h refl
or_absorbed false false h = refl

listed_same :
    (orphans : List Bytes) (n name : Bytes)
    → is_listed orphans n ≡ true
    → strcmp_eq n name ≡ true
    → is_listed orphans name ≡ true
listed_same orphans n name listed e =
    let same : n ≡ name = (strcmp_eq_iff n name).0 e in rw (← same) listed

-- What one name adds to the scan is what it adds to the cleanup.
scan_name-listed :
    (ns : List (Option Bytes)) (orphans : List Bytes) (n name : Bytes)
    → is_known ns n ≡ false
    → is_listed (scan_name ns orphans n) name
      ≡ is_listed orphans name || (strcmp_eq n name || false)
unfolding scan_name
scan_name-listed ns orphans n name unknown = elim (Bool-cases (is_listed orphans n)) [
  | inl listed ↦
      rw (unknown, listed)
        (or_absorbed (is_listed orphans name) (strcmp_eq n name)
          (listed_same orphans n name listed))
  | inr new ↦ rw (unknown, new) (unfold is_listed in is_listed-append orphans (n ∷ []) name)
]

scan_name-known :
    (ns : List (Option Bytes)) (orphans : List Bytes) (n : Bytes)
    → is_known ns n ≡ true
    → scan_name ns orphans n ≡ orphans
unfolding scan_name
scan_name-known ns orphans n known = rw known refl

regroup : (a b c : Bool) → (a || (b || false)) || c ≡ a || (b || c)
regroup true b c = refl
regroup false true c = refl
regroup false false c = refl

scan_names-listed :
    (ns : List (Option Bytes)) (orphans names : List Bytes) (name path : Bytes)
    → All IsPlain names
    → is_listed (scan_names ns orphans names) name
      ≡ is_listed orphans name || deletes (clean_names ns path names) name
unfolding scan_names clean_names
scan_names-listed ns orphans [] name path plain = sym (or_false (is_listed orphans name))
scan_names-listed ns orphans (n ∷ names) name path plain = elim (Bool-cases (is_known ns n)) [
  | inl known ↦ rw known (
      rw (scan_name-known ns orphans n known)
        (scan_names-listed ns orphans names name path plain.1))
  | inr unknown ↦
      let later = scan_names-listed ns (scan_name ns orphans n) names name path plain.1 in
      let first = scan_name-listed ns orphans n name unknown in
      rw (unknown, quoted-delete_command n path plain.0)
        (later
          ∙ ap (λ b. b || deletes (clean_names ns path names) name) first
          ∙ regroup (is_listed orphans name) (strcmp_eq n name)
              (deletes (clean_names ns path names) name))
]

-- The names that are found on a disk, where they can be had.
abbrev pub names_in : Option (List Bytes) → List Bytes
names_in none = []
names_in (some names) = names

scan_disk-listed :
    (ns : List (Option Bytes)) (orphans : List Bytes) (names : Option (List Bytes))
    (name path : Bytes)
    → All IsPlain (names_in names)
    → is_listed (scan_disk ns orphans names) name
      ≡ is_listed orphans name || deletes (clean_disk ns path names) name
unfolding scan_disk clean_disk
scan_disk-listed ns orphans none name path plain = sym (or_false (is_listed orphans name))
scan_disk-listed ns orphans (some names) name path plain =
    scan_names-listed ns orphans names name path plain

abbrev pub ArePlain : (Bytes → Option Bytes) → Type 0
ArePlain qemu_img = (path : Bytes) → All IsPlain (names_in (qcow2_snapshot_names qemu_img path))

scan_disks-listed :
    (qemu_img : Bytes → Option Bytes) (ns : List (Option Bytes)) (orphans paths : List Bytes)
    (name : Bytes)
    → ArePlain qemu_img
    → is_listed (scan_disks qemu_img ns orphans paths) name
      ≡ is_listed orphans name || deletes (clean_disks qemu_img ns paths) name
unfolding scan_disks clean_disks
scan_disks-listed qemu_img ns orphans [] name plain = sym (or_false (is_listed orphans name))
scan_disks-listed qemu_img ns orphans (path ∷ paths) name plain =
    let found = qcow2_snapshot_names qemu_img path in
    let rest = deletes (clean_disks qemu_img ns paths) name in
    scan_disks-listed qemu_img ns (scan_disk ns orphans found) paths name plain
    ∙ ap (λ b. b || rest) (scan_disk-listed ns orphans found name path (plain path))
    ∙ or_assoc (is_listed orphans name) (deletes (clean_disk ns path found) name) rest
    ∙ ap (λ b. is_listed orphans name || b)
        (sym (deletes-append (clean_disk ns path found) (clean_disks qemu_img ns paths) name))

-- Whether a scan shows the name.
abbrev pub shows : Option (List Bytes) → Bytes → Bool
shows none name = false
shows (some orphans) name = is_listed orphans name

module _ {W : Type 0} (lv : Libvirt W) (domain_of : Bytes → Call W Domain)
    (qemu_img : Bytes → Option Bytes) (plain : ArePlain qemu_img) where
  on_domain-deletes :
      (vm_name name : Bytes) (found : Bool) (s : Session W)
      → shows (on_domain none (scan_on lv domain_of qemu_img vm_name) found s).0 name
        ≡ deletes (on_domain ([], none) (clean_on lv domain_of qemu_img vm_name) found s).0.0 name
  on_domain-deletes vm_name name false s = refl
  on_domain-deletes vm_name name true s =
      let dom = (domain_of vm_name s.libvirt).0 in
      elim (Bool-cases dom.is_shutoff) [
        | inl off ↦ rw off (
            unfold is_listed in
            scan_disks-listed qemu_img (names_of dom.listed) [] (get_domain_disk_paths dom.xml) name
              plain)
        | inr on ↦ rw on (unfold is_listed in refl)
      ]

  -- Where no snapshot on a disk has a name with an apostrophe or of more than 1023 bytes: the names that
  -- the scan of a machine shows are exactly those that stand between the first two apostrophes of the
  -- commands that the cleanup runs in the same state, where a shell reads the name to delete. They are
  -- none where the machine is not found or not shut off.
  pub lv_scan_orphan_snapshots-deletes :
      (vm_name name : Bytes) (s : Session W)
      → shows (lv_scan_orphan_snapshots lv domain_of qemu_img vm_name s).0 name
        ≡ deletes (lv_cleanup_orphan_snapshots lv domain_of qemu_img vm_name s).0.0 name
  unfolding lv_scan_orphan_snapshots lv_cleanup_orphan_snapshots
  lv_scan_orphan_snapshots-deletes vm_name name s =
      on_domain-deletes vm_name name (lv_lookup_domain_locked lv vm_name s).0
        (lv_lookup_domain_locked lv vm_name s).1

-- A command that deletes a name that libvirt does not list.
abbrev pub IsOrphan : List (Option Bytes) → Bytes → Type 0
IsOrphan lv_names cmd = All (λ l. l ≢ some (quoted cmd)) lv_names

is_known-none :
    (ns : List (Option Bytes)) (name : Bytes)
    → is_known ns name ≡ false
    → All (λ l. l ≢ some name) ns
unfolding is_known
is_known-none [] name e = tt
is_known-none (none ∷ ns) name e = ((λ q. cc), is_known-none ns name e)
is_known-none (some b ∷ ns) name e = elim (Bool-cases (strcmp_eq name b)) [
  | inl same ↦ let no : true ≡ false = rw same at e in cc
  | inr other ↦ (
    (λ q.
        let equal : b ≡ name = some-injective b name q in
        let hit : strcmp_eq name b ≡ true = rw equal (strcmp_eq_self name) in cc (hit, other)),
    is_known-none ns name (rw other at e),
  )
]

clean_names-IsOrphan :
    (ns : List (Option Bytes)) (path : Bytes) (names : List Bytes)
    → All IsPlain names
    → All (IsOrphan ns) (clean_names ns path names)
unfolding clean_names
clean_names-IsOrphan ns path [] plain = tt
clean_names-IsOrphan ns path (n ∷ names) plain = elim (Bool-cases (is_known ns n)) [
  | inl known ↦ rw known (clean_names-IsOrphan ns path names plain.1)
  | inr unknown ↦ rw unknown (
    rw (quoted-delete_command n path plain.0) (is_known-none ns n unknown),
    clean_names-IsOrphan ns path names plain.1,
  )
]

clean_disk-IsOrphan :
    (ns : List (Option Bytes)) (path : Bytes) (names : Option (List Bytes))
    → All IsPlain (names_in names)
    → All (IsOrphan ns) (clean_disk ns path names)
unfolding clean_disk
clean_disk-IsOrphan ns path none plain = tt
clean_disk-IsOrphan ns path (some names) plain = clean_names-IsOrphan ns path names plain

clean_disks-IsOrphan :
    (qemu_img : Bytes → Option Bytes) (ns : List (Option Bytes)) (paths : List Bytes)
    → ArePlain qemu_img
    → All (IsOrphan ns) (clean_disks qemu_img ns paths)
unfolding clean_disks clean_disk
clean_disks-IsOrphan qemu_img ns [] plain = tt
clean_disks-IsOrphan qemu_img ns (path ∷ paths) plain =
    All-append (IsOrphan ns) (clean_disk ns path (qcow2_snapshot_names qemu_img path))
      (clean_disks qemu_img ns paths)
      (clean_disk-IsOrphan ns path (qcow2_snapshot_names qemu_img path) (plain path))
      (clean_disks-IsOrphan qemu_img ns paths plain)

module _ {W : Type 0} (lv : Libvirt W) (domain_of : Bytes → Call W Domain)
    (qemu_img : Bytes → Option Bytes) (plain : ArePlain qemu_img) where
  on_domain-IsOrphan :
      (vm_name : Bytes) (found : Bool) (s : Session W)
      → All
          (IsOrphan (names_of (domain_of vm_name s.libvirt).0.listed))
          (on_domain ([], none) (clean_on lv domain_of qemu_img vm_name) found s).0.0
  on_domain-IsOrphan vm_name false s = tt
  on_domain-IsOrphan vm_name true s =
      let dom = (domain_of vm_name s.libvirt).0 in
      elim (Bool-cases dom.is_shutoff) [
        | inl off ↦ rw off (
            clean_disks-IsOrphan qemu_img (names_of dom.listed) (get_domain_disk_paths dom.xml)
              plain)
        | inr on ↦ rw on tt
      ]

  -- Where no snapshot on a disk has a name with an apostrophe or of more than 1023 bytes: in any state of
  -- the machine, no command that the cleanup runs has, between its first two apostrophes, where a shell
  -- reads the name to delete, a name that libvirt has listed after the lookup.
  pub lv_cleanup_orphan_snapshots-IsOrphan :
      (vm_name : Bytes) (s : Session W)
      → All
          (IsOrphan (
            names_of (domain_of vm_name (lv_lookup_domain_locked lv vm_name s).1.libvirt).0.listed))
          (lv_cleanup_orphan_snapshots lv domain_of qemu_img vm_name s).0.0
  unfolding lv_cleanup_orphan_snapshots
  lv_cleanup_orphan_snapshots-IsOrphan vm_name s =
      on_domain-IsOrphan vm_name (lv_lookup_domain_locked lv vm_name s).0
        (lv_lookup_domain_locked lv vm_name s).1

-- Every name of a disk, with the disk.
abbrev pub all_names : Bytes → Option (List Bytes) → List Bytes
all_names path none = []
all_names path (some names) = map (λ name. delete_command name path) names

abbrev pub all_on : (Bytes → Option Bytes) → List Bytes → List Bytes
all_on qemu_img [] = []
all_on qemu_img (path ∷ paths) =
    all_names path (qcow2_snapshot_names qemu_img path) ++ all_on qemu_img paths

clean_names-unlisted :
    (path : Bytes) (names : List Bytes)
    → clean_names [] path names ≡ map (λ name. delete_command name path) names
unfolding clean_names is_known
clean_names-unlisted path [] = refl
clean_names-unlisted path (n ∷ names) =
    ap (λ r. delete_command n path ∷ r) (clean_names-unlisted path names)

clean_disk-unlisted :
    (path : Bytes) (names : Option (List Bytes)) → clean_disk [] path names ≡ all_names path names
unfolding clean_disk
clean_disk-unlisted path none = refl
clean_disk-unlisted path (some names) = clean_names-unlisted path names

-- Where libvirt cannot list the snapshots of a machine, the cleanup runs the deletion of every snapshot
-- on every disk that can be read.
clean_disks-unlisted :
    (qemu_img : Bytes → Option Bytes) (paths : List Bytes)
    → clean_disks qemu_img (names_of none) paths ≡ all_on qemu_img paths
unfolding clean_disks
clean_disks-unlisted qemu_img [] = refl
clean_disks-unlisted qemu_img (path ∷ paths) =
    ap₂ ◌++◌ (clean_disk-unlisted path (qcow2_snapshot_names qemu_img path))
      (clean_disks-unlisted qemu_img paths)
