-- ===== src/Libvirt/Guest/Mounts.antt =====
-- src/libvirt_backend.c: mounting a shared folder in the guest, and what is mounted there.
pub mod Lines
use qemu_snapshot_web_manage.Prelude.{
  ℕ, zero, suc, ◌-◌, ◌==◌, leb, Bool, true, false, ◌&&◌, ◌||◌, Option, none, some, List, [], ◌∷◌,
  ◌++◌, map, if◌then◌else◌, Bytes, codes, length, drop, snprintf_s, strcmp_eq, strchr, is_prefix,
}
use qemu_snapshot_web_manage.Prelude.Int.{ℤ, pos, negsuc}
use qemu_snapshot_web_manage.Backend.{SharedFolder}
use qemu_snapshot_web_manage.Libvirt.Session.{
  Libvirt, Session, vir_domain_running, after, with_domain,
}
use qemu_snapshot_web_manage.Libvirt.Guest.{Agent, Outcome, guest_exec}

unfoldable pub unskip_command : Bytes → Bytes
unskip_command mount_tag =
    snprintf_s 512
      (codes "sed -i '/^" ++ (mount_tag ++ codes "$/d' /etc/qemu-no-automount 2>/dev/null; true"))

abbrev or_virtiofs : Bytes → Bytes
or_virtiofs [] = codes "virtiofs"
or_virtiofs (c ∷ fs_type) = c ∷ fs_type

unfoldable pub guest_mount_command : Bytes → Bytes → Bytes
guest_mount_command mount_tag fs_type =
    let option =
      if strcmp_eq (or_virtiofs fs_type) (codes "9p")
      then codes "9p -o trans=virtio "
      else codes "virtiofs " in
    snprintf_s 512 (
      codes "/usr/bin/mkdir -p /media/"
      ++ (mount_tag
          ++ (codes " && /usr/bin/mount -t "
              ++ (option ++ (mount_tag ++ (codes " /media/" ++ mount_tag))))))

unfoldable pub skip_command : Bytes → Bytes
skip_command mount_tag = snprintf_s 512 (
    codes "grep -qxF '"
    ++ (mount_tag
        ++ (codes "' /etc/qemu-no-automount 2>/dev/null || echo '"
            ++ (mount_tag ++ codes "' >> /etc/qemu-no-automount"))))

-- The script that `lv_unmount_shared_folder` writes again.
abbrev unmount_script : Bytes
unmount_script =
    codes
      "cat > /usr/local/bin/qemu-automount << 'SCRIPT'\n#!/bin/bash\nSKIP=/etc/qemu-no-automount\nfor tag_path in /sys/fs/virtiofs/*/tag; do\n    [ -e \"$tag_path\" ] || continue\n    TAG=$(cat \"$tag_path\")\n    if [ -f \"$SKIP\" ] && grep -qxF \"$TAG\" \"$SKIP\"; then continue; fi\n    MP=\"/media/$TAG\"\n    mkdir -p \"$MP\"\n    if ! mountpoint -q \"$MP\"; then\n        mount -t virtiofs \"$TAG\" \"$MP\" >/dev/null 2>&1\n    fi\ndone\nSCRIPT\nchmod +x /usr/local/bin/qemu-automount"

unfoldable pub guest_umount_command : Bytes → Bytes
guest_umount_command mount_tag = snprintf_s 256 (codes "/usr/bin/umount /media/" ++ mount_tag)

abbrev pub is_space : ℕ → Bool
is_space c = c == b' ' || c == b'\t'

-- `while (*line == ' ' || *line == '\t') line++`
unfoldable pub skip_indent : Bytes → Bytes
skip_indent [] = []
skip_indent (c ∷ s) = if is_space c then skip_indent s else c ∷ s

abbrev pub ends_entry : Bytes → Bool
ends_entry [] = true
ends_entry (c ∷ s) = is_space c || c == b'\n'

abbrev pub line_length : Bytes → Option Bytes → ℕ
line_length line none = length line
line_length line (some eol) = length line - length eol

unfoldable pub is_entry : Bytes → Bytes → ℕ → Bool
is_entry expected line linelen =
    leb (length expected) linelen
    && is_prefix line expected
    && ends_entry (drop (length expected) line)

-- `line = eol ? eol + 1 : NULL`
abbrev pub in_next : (Bytes → Bool) → Option Bytes → Bool
in_next search none = false
in_next search (some eol) = search (drop 1 eol)

-- The loop over the lines of `findmnt`, with fuel for them.
unfoldable pub is_mounted : ℕ → Bytes → Bytes → Bool
is_mounted zero expected line = false
is_mounted (suc fuel) expected [] = false
is_mounted (suc fuel) expected (c ∷ rest) =
    let line = skip_indent (c ∷ rest) in
    let eol = strchr line b'\n' in
    let later = in_next (is_mounted fuel expected) eol in
    if is_entry expected line (line_length line eol) then true else later

unfoldable pub mount_point : Bytes → Bytes
mount_point mount_tag = snprintf_s 512 (codes "/media/" ++ mount_tag)

abbrev pub mounted_at : Bytes → Option Bytes → ℤ
mounted_at msg none = pos 0
mounted_at msg (some mount_tag) =
    if is_mounted (suc (length msg)) (mount_point mount_tag) msg then pos 1 else pos 0

unfoldable pub mark_mounted : Bytes → SharedFolder → SharedFolder
mark_mounted msg f = record f { mounted = mounted_at msg f.mount_tag }

abbrev pub mark_unknown : SharedFolder → SharedFolder
mark_unknown f = record f { mounted = negsuc 0 }

-- Without an answer of the guest the folders stay unknown.
unfoldable pub read_mounts : Outcome → List SharedFolder → List SharedFolder
read_mounts o folders =
    if o.success
    then elim o.message [
      | none ↦ map mark_unknown folders
      | some msg ↦ map (mark_mounted msg) folders
    ]
    else map mark_unknown folders

abbrev pub is_running : Option ℕ → Bool
is_running none = false
is_running (some state) = state == vir_domain_running

module _ {W : Type 0} where
  -- What is done on a machine that runs, and otherwise.
  abbrev pub if_running :
      {A : Type 0}
      → Libvirt W
      → Bytes
      → (Session W → A × Session W)
      → (Session W → A × Session W)
      → Session W
      → A × Session W
  if_running lv vm_name otherwise act s =
      let (state, w) = lv.domain_info vm_name s.libvirt in
      if is_running state then act (after s w) else otherwise (after s w)

  abbrev pub in_guest : Libvirt W → Agent W → Bytes → Bytes → Session W → Outcome × Session W
  in_guest lv ga vm_name command s =
      let (outcome, w) = guest_exec lv ga vm_name command s.libvirt in (outcome, after s w)

  abbrev pub not_running : Session W → Bool × Session W
  not_running s = (false, record s { last_error = codes "VM is not running" })

  abbrev pub with_message : Option Bytes → Session W → Session W
  with_message none s = s
  with_message (some msg) s = record s { last_error = snprintf_s 1024 msg }

  abbrev pub reported : Outcome → Session W → Bool × Session W
  reported o s = (o.success, if o.success then s else with_message o.message s)

  abbrev pub mount_on : Libvirt W → Agent W → Bytes → Bytes → Bytes → Session W → Bool × Session W
  mount_on lv ga vm_name mount_tag fs_type s =
      let (_, s1) = in_guest lv ga vm_name (unskip_command mount_tag) s in
      let (o, s2) = in_guest lv ga vm_name (guest_mount_command mount_tag fs_type) s1 in
      reported o s2

  unfoldable pub lv_mount_shared_folder :
      Libvirt W → Agent W → Bytes → Bytes → Bytes → Session W → Bool × Session W
  lv_mount_shared_folder lv ga vm_name mount_tag fs_type =
      with_domain lv vm_name false
        (if_running lv vm_name not_running (mount_on lv ga vm_name mount_tag fs_type))

  abbrev pub unmount_on : Libvirt W → Agent W → Bytes → Bytes → Session W → Bool × Session W
  unmount_on lv ga vm_name mount_tag s =
      let (_, s1) = in_guest lv ga vm_name (skip_command mount_tag) s in
      let (_, s2) = in_guest lv ga vm_name unmount_script s1 in
      let (o, s3) = in_guest lv ga vm_name (guest_umount_command mount_tag) s2 in reported o s3

  unfoldable pub lv_unmount_shared_folder :
      Libvirt W → Agent W → Bytes → Bytes → Session W → Bool × Session W
  lv_unmount_shared_folder lv ga vm_name mount_tag =
      with_domain lv vm_name false
        (if_running lv vm_name not_running (unmount_on lv ga vm_name mount_tag))

  abbrev pub unknown_mounts : List SharedFolder → Session W → (Bool × List SharedFolder) × Session W
  unknown_mounts folders s = ((true, map mark_unknown folders), s)

  abbrev pub mounts_on :
      Libvirt W
      → Agent W
      → Bytes
      → List SharedFolder
      → Session W
      → (Bool × List SharedFolder) × Session W
  mounts_on lv ga vm_name folders s =
      let (o, s') = in_guest lv ga vm_name (codes "findmnt -n -o TARGET,FSTYPE --list") s in
      ((true, read_mounts o folders), s')

  unfoldable pub lv_check_mount_status :
      Libvirt W
      → Agent W
      → Bytes
      → List SharedFolder
      → Session W
      → (Bool × List SharedFolder) × Session W
  lv_check_mount_status lv ga vm_name [] s = ((false, []), s)
  lv_check_mount_status lv ga vm_name (f ∷ folders) s =
      with_domain lv vm_name (false, f ∷ folders)
        (if_running lv vm_name (unknown_mounts (f ∷ folders))
          (mounts_on lv ga vm_name (f ∷ folders)))
        s
