-- ===== src/Libvirt/Folders/Calls.antt =====
-- src/libvirt_backend.c: the operations on the shared folders of a machine.
use qemu_snapshot_web_manage.Prelude.{
  ℕ, suc, Bool, true, false, not, Option, none, some, List, [], ◌++◌, if◌then◌else◌, Bytes, codes,
  length, snprintf_s,
}
use qemu_snapshot_web_manage.Prelude.Int.{ℤ, pos}
use qemu_snapshot_web_manage.Backend.{SharedFolder, Call}
use qemu_snapshot_web_manage.Libvirt.Orphans.{Domain}
use qemu_snapshot_web_manage.Libvirt.Session.{
  Libvirt, Session, after, with_domain, called, conn_lock, conn_unlock,
}
use qemu_snapshot_web_manage.Libvirt.Guest.{Agent, guest_exec}
use qemu_snapshot_web_manage.Libvirt.Folders.{
  is_live, blocks, folders_in, marked, is_shared, shared_xml, is_9p_type, filesystem_xml,
  mount_command, umount_command, block_with, failed_code, required_code, is_zero, lacks_shared,
}

-- The calls on the devices of a machine, and the list of its snapshots: `affect_live` is the flag `VIR_DOMAIN_AFFECT_LIVE` beside
-- `VIR_DOMAIN_AFFECT_CONFIG`, `attach_device` and `detach_device` give what libvirt returns, and `agent` is the
-- agent in the guest.
pub record Devices (W : Type 0) : Type 0 where
  pub state : Bytes → Call W ℕ
  pub list_all_snapshots : Bytes → Call W (Option (List Bytes))
  pub orphan_domain : Bytes → Call W Domain
  pub live_xml : Bytes → Call W (Option Bytes)
  pub attach_device : Bytes → Bytes → Bool → Call W ℤ
  pub detach_device : Bytes → Bytes → Bool → Call W ℤ
  pub agent : Agent W

module _ {W : Type 0} where
  abbrev pub live_folders :
      Devices W
      → Bytes
      → List SharedFolder
      → Bool
      → Session W
      → Option (List SharedFolder) × Session W
  live_folders dv vm_name folders false s = (some folders, s)
  live_folders dv vm_name folders true s =
      let (live, w) = dv.live_xml vm_name s.libvirt in (some (marked live folders), after s w)

  abbrev pub with_state :
      Devices W → Bytes → List SharedFolder → Session W → Option (List SharedFolder) × Session W
  with_state dv vm_name folders s =
      let (state, w) = dv.state vm_name s.libvirt in
      live_folders dv vm_name folders (is_live state) (after s w)

  -- The machine is looked up again for its state.
  abbrev pub listed_folders :
      Libvirt W
      → Devices W
      → (ℕ → SharedFolder)
      → Bytes
      → Option Bytes
      → Session W
      → Option (List SharedFolder) × Session W
  listed_folders lv dv left vm_name none s = (none, s)
  listed_folders lv dv left vm_name (some xml) s =
      let folders = folders_in left xml in
      with_domain lv vm_name (some folders) (with_state dv vm_name folders) s

  abbrev pub list_on :
      Libvirt W
      → Devices W
      → (ℕ → SharedFolder)
      → Bytes
      → Session W
      → Option (List SharedFolder) × Session W
  list_on lv dv left vm_name s =
      let (xml, w) = lv.inactive_xml vm_name s.libvirt in
      listed_folders lv dv left vm_name xml (after s w)

  unfoldable pub lv_list_shared_folders :
      Libvirt W
      → Devices W
      → (ℕ → SharedFolder)
      → Bytes
      → Session W
      → Option (List SharedFolder) × Session W
  lv_list_shared_folders lv dv left vm_name =
      with_domain lv vm_name none (list_on lv dv left vm_name)

  abbrev pub message_of : Libvirt W → Bytes → Session W → Bytes
  message_of lv default s = elim (lv.last_message s.libvirt) [
    | none ↦ default
    | some message ↦ message
  ]

  abbrev pub enabled : Libvirt W → Bool → Session W → Bool × Session W
  enabled lv true s = (true, s)
  enabled lv false s = (
    false,
    record s {
      last_error =
          snprintf_s 1024
            (codes "Failed to enable shared memory: " ++ message_of lv (codes "unknown") s);
    },
  )

  abbrev pub define_shared : Libvirt W → Option Bytes → Session W → Bool × Session W
  define_shared lv none s = (false, s)
  define_shared lv (some newxml) s =
      let (done, s') = called (lv.define_xml s.connected newxml) (conn_lock s) in
      enabled lv done (conn_unlock s')

  abbrev pub enable_xml : Libvirt W → Option Bytes → Session W → Bool × Session W
  enable_xml lv none s = (false, s)
  enable_xml lv (some domxml) s =
      if is_shared domxml then (true, s) else define_shared lv (shared_xml domxml) s

  abbrev pub enable_on : Libvirt W → Bytes → Session W → Bool × Session W
  enable_on lv vm_name s =
      let (xml, w) = lv.inactive_xml vm_name s.libvirt in enable_xml lv xml (after s w)

  unfoldable pub lv_enable_shared_memory : Libvirt W → Bytes → Session W → Bool × Session W
  lv_enable_shared_memory lv vm_name = with_domain lv vm_name false (enable_on lv vm_name)

  -- After the device is attached: 1 where the machine has to be restarted for it.
  abbrev pub mounted_now :
      Libvirt W → Devices W → Bytes → Bytes → Bytes → Bool → Session W → ℤ × Session W
  mounted_now lv dv vm_name mount_tag fs_type false s = (pos 0, s)
  mounted_now lv dv vm_name mount_tag fs_type true s = (
    pos 0,
    after s (guest_exec lv dv.agent vm_name (mount_command mount_tag fs_type) s.libvirt).1,
  )

  abbrev pub attached :
      Libvirt W → Devices W → Bytes → Bytes → Bytes → Bool → Bool → ℤ → Session W → ℤ × Session W
  attached lv dv vm_name mount_tag fs_type affect_live needs_restart ret s =
      if not (is_zero ret)
      then (
        ret,
        record s { last_error = snprintf_s 1024 (message_of lv (codes "unknown error") s) },
      )
      else if needs_restart
      then (pos 1, record s { last_error = [] })
      else mounted_now lv dv vm_name mount_tag fs_type affect_live (record s { last_error = [] })

  abbrev pub attach_with :
      Libvirt W
      → Devices W
      → Bytes
      → Bytes
      → Bytes
      → Bytes
      → Bool
      → Bool
      → Session W
      → ℤ × Session W
  attach_with lv dv vm_name mount_tag fs_type xml affect_live needs_restart s =
      let (ret, w) = dv.attach_device vm_name xml affect_live s.libvirt in
      attached lv dv vm_name mount_tag fs_type affect_live needs_restart ret (after s w)

  -- Into a machine that runs a virtiofs folder goes only if its live XML has shared memory.
  abbrev pub attach_for :
      Libvirt W → Devices W → Bytes → Bytes → Bytes → Bytes → Bool → Session W → ℤ × Session W
  attach_for lv dv vm_name mount_tag fs_type xml false s =
      attach_with lv dv vm_name mount_tag fs_type xml false false s
  attach_for lv dv vm_name mount_tag fs_type xml true s =
      if is_9p_type fs_type
      then attach_with lv dv vm_name mount_tag fs_type xml true false s
      else let (live, w) = dv.live_xml vm_name s.libvirt in
        attach_with lv dv vm_name mount_tag fs_type xml (not (lacks_shared live))
          (lacks_shared live) (after s w)

  abbrev pub add_checked :
      Libvirt W → Devices W → Bytes → Bytes → Bytes → Bytes → Bool → Session W → ℤ × Session W
  add_checked lv dv vm_name mount_tag fs_type xml true s = (
    required_code,
    record s { last_error = codes "VirtioFS requires shared memory to be enabled on this VM" },
  )
  add_checked lv dv vm_name mount_tag fs_type xml false s =
      let (state, w) = dv.state vm_name s.libvirt in
      attach_for lv dv vm_name mount_tag fs_type xml (is_live state) (after s w)

  abbrev pub add_on :
      Libvirt W → Devices W → Bytes → Bytes → Bytes → Bool → Bytes → Session W → ℤ × Session W
  add_on lv dv vm_name source_dir mount_tag read_only fs_type s =
      let xml = filesystem_xml source_dir mount_tag read_only fs_type in
      if is_9p_type fs_type
      then add_checked lv dv vm_name mount_tag fs_type xml false s
      else let (domxml, w) = lv.inactive_xml vm_name s.libvirt in
        add_checked lv dv vm_name mount_tag fs_type xml (lacks_shared domxml) (after s w)

  unfoldable pub lv_add_shared_folder :
      Libvirt W → Devices W → Bytes → Bytes → Bytes → Bool → Bytes → Session W → ℤ × Session W
  lv_add_shared_folder lv dv vm_name source_dir mount_tag read_only fs_type =
      with_domain lv vm_name failed_code
        (add_on lv dv vm_name source_dir mount_tag read_only fs_type)

  abbrev pub detach_with : Devices W → Bytes → Bytes → Bool → Session W → Bool × Session W
  detach_with dv vm_name fs_xml affect_live s =
      let (ret, w) = dv.detach_device vm_name fs_xml affect_live s.libvirt in
      (is_zero ret, after s w)

  -- In a machine that runs the folder is unmounted first.
  abbrev pub detach_state :
      Libvirt W → Devices W → Bytes → Bytes → Bytes → Bool → Session W → Bool × Session W
  detach_state lv dv vm_name mount_tag fs_xml false s = detach_with dv vm_name fs_xml false s
  detach_state lv dv vm_name mount_tag fs_xml true s =
      detach_with dv vm_name fs_xml true
        (after s (guest_exec lv dv.agent vm_name (umount_command mount_tag) s.libvirt).1)

  abbrev pub remove_found :
      Libvirt W → Devices W → Bytes → Bytes → Option Bytes → Session W → Bool × Session W
  remove_found lv dv vm_name mount_tag none s = (false, s)
  remove_found lv dv vm_name mount_tag (some fs_xml) s =
      let (state, w) = dv.state vm_name s.libvirt in
      detach_state lv dv vm_name mount_tag fs_xml (is_live state) (after s w)

  abbrev pub remove_in :
      Libvirt W → Devices W → Bytes → Bytes → Option Bytes → Session W → Bool × Session W
  remove_in lv dv vm_name mount_tag none s = (false, s)
  remove_in lv dv vm_name mount_tag (some xml) s =
      remove_found lv dv vm_name mount_tag
        (block_with mount_tag (blocks (suc (length xml)) (length (codes "</filesystem>")) xml)) s

  abbrev pub remove_on : Libvirt W → Devices W → Bytes → Bytes → Session W → Bool × Session W
  remove_on lv dv vm_name mount_tag s =
      let (xml, w) = dv.live_xml vm_name s.libvirt in
      remove_in lv dv vm_name mount_tag xml (after s w)

  unfoldable pub lv_remove_shared_folder :
      Libvirt W → Devices W → Bytes → Bytes → Session W → Bool × Session W
  lv_remove_shared_folder lv dv vm_name mount_tag =
      with_domain lv vm_name false (remove_on lv dv vm_name mount_tag)
