-- ===== src/Libvirt/Folders/Lock.antt =====
-- The lock of src/libvirt_backend.c and the operations on shared folders, mixed with the others.
use qemu_snapshot_web_manage.Prelude.{
  ℕ, refl, Bool, true, false, not, Option, none, some, List, [], ◌∷◌, Bytes,
}
use qemu_snapshot_web_manage.Prelude.Int.{ℤ, negsuc}
use qemu_snapshot_web_manage.Backend.{SharedFolder}
use qemu_snapshot_web_manage.Libvirt.Session.{
  Libvirt, Session, after, called, conn_lock, conn_unlock,
}
use qemu_snapshot_web_manage.Libvirt.Lock.{
  after-IsFree, Operation, IsFree, if-either, perform, perform-IsFree, once, with_domain-IsFree,
}
use qemu_snapshot_web_manage.Libvirt.Guest.Mounts.{
  lv_mount_shared_folder, lv_unmount_shared_folder, lv_check_mount_status,
}
use qemu_snapshot_web_manage.Libvirt.Guest.Os.{lv_detect_guest_os}
use qemu_snapshot_web_manage.Libvirt.Guest.Automount.{lv_check_automount_status, lv_setup_automount}
use qemu_snapshot_web_manage.Libvirt.Guest.Lock.{
  mount-IsFree, unmount-IsFree, check_mount-IsFree, check_automount-IsFree, setup-IsFree,
  detect-IsFree,
}
use qemu_snapshot_web_manage.Libvirt.Orphans.{
  Domain, scan_on, clean_on, clean_domain, lv_scan_orphan_snapshots, lv_cleanup_orphan_snapshots,
}
use qemu_snapshot_web_manage.Libvirt.Table.{tree_with, list_snapshots_on, lv_snapshot_tree}
use qemu_snapshot_web_manage.Libvirt.Folders.{
  folders_in, is_shared, shared_xml, is_9p_type, is_zero,
}
use qemu_snapshot_web_manage.Libvirt.Folders.Calls.{
  Devices, with_state, live_folders, listed_folders, list_on, lv_list_shared_folders, enabled,
  define_shared, enable_xml, enable_on, lv_enable_shared_memory, mounted_now, attached, attach_with,
  attach_for, add_checked, add_on, lv_add_shared_folder, detach_state, remove_found, remove_in,
  remove_on, lv_remove_shared_folder,
}

pub data Request : Type 0 where
  operation : Operation → Request
  list_snapshots : (Bytes → Bytes) → Bytes → Request
  scan_orphans cleanup_orphans : (Bytes → Option Bytes) → Bytes → Request
  list_shared_folders : (ℕ → SharedFolder) → Bytes → Request
  enable_shared_memory : Bytes → Request
  add_shared_folder : Bytes → Bytes → Bytes → Bool → Bytes → Request
  remove_shared_folder : Bytes → Bytes → Request
  mount_shared_folder : Bytes → Bytes → Bytes → Request
  unmount_shared_folder : Bytes → Bytes → Request
  check_mount_status : Bytes → List SharedFolder → Request
  check_automount_status setup_automount detect_guest_os : Bytes → Request

module _ {W : Type 0} (lv : Libvirt W) (dv : Devices W) where
  abbrev pub answer : Request → Session W → Session W
  answer (operation op) s = perform lv op s
  answer (list_snapshots iso name) s = (lv_snapshot_tree lv dv iso name s).1
  answer (scan_orphans qemu_img name) s =
      (lv_scan_orphan_snapshots lv dv.orphan_domain qemu_img name s).1
  answer (cleanup_orphans qemu_img name) s =
      (lv_cleanup_orphan_snapshots lv dv.orphan_domain qemu_img name s).1
  answer (list_shared_folders left name) s = (lv_list_shared_folders lv dv left name s).1
  answer (enable_shared_memory name) s = (lv_enable_shared_memory lv name s).1
  answer (add_shared_folder name source tag read_only fs_type) s =
      (lv_add_shared_folder lv dv name source tag read_only fs_type s).1
  answer (remove_shared_folder name tag) s = (lv_remove_shared_folder lv dv name tag s).1
  answer (mount_shared_folder name tag fs_type) s =
      (lv_mount_shared_folder lv dv.agent name tag fs_type s).1
  answer (unmount_shared_folder name tag) s = (lv_unmount_shared_folder lv dv.agent name tag s).1
  answer (check_mount_status name folders) s = (lv_check_mount_status lv dv.agent name folders s).1
  answer (check_automount_status name) s = (lv_check_automount_status lv dv.agent name s).1
  answer (setup_automount name) s = (lv_setup_automount lv dv.agent name s).1
  answer (detect_guest_os name) s = (lv_detect_guest_os lv dv.agent name s).1

  unfoldable pub answer_all : List Request → Session W → Session W
  answer_all [] s = s
  answer_all (r ∷ rest) s = answer_all rest (answer r s)

  with_error-IsFree :
      (s : Session W) (text : Bytes) → IsFree s → IsFree (record s { last_error = text })
  with_error-IsFree s text free = record { unlocked = free.unlocked; running = free.running }

  clean_domain-IsFree :
      (qemu_img : Bytes → Option Bytes) (dom : Domain) (s : Session W)
      → IsFree s
      → IsFree (clean_domain lv dv.orphan_domain qemu_img dom s).1
  clean_domain-IsFree qemu_img dom s free =
      if-either (λ (t : (List Bytes × Option ℕ) × Session W). IsFree t.1) dom.is_shutoff _ _
        (after-IsFree s _ free) (with_error-IsFree s _ free)

  live_folders-IsFree :
      (name : Bytes) (folders : List SharedFolder) (live : Bool) (s : Session W)
      → IsFree s
      → IsFree (live_folders dv name folders live s).1
  live_folders-IsFree name folders false s free = free
  live_folders-IsFree name folders true s free = after-IsFree s _ free

  listed_folders-IsFree :
      (left : ℕ → SharedFolder) (name : Bytes) (xml : Option Bytes) (s : Session W)
      → IsFree s
      → IsFree (listed_folders lv dv left name xml s).1
  listed_folders-IsFree left name none s free = free
  listed_folders-IsFree left name (some xml) s free =
      with_domain-IsFree lv name _ (with_state dv name (folders_in left xml)) s
        (λ s' f. live_folders-IsFree name _ _ (after s' _) (after-IsFree s' _ f)) free

  enabled-IsFree : (done : Bool) (s : Session W) → IsFree s → IsFree (enabled lv done s).1
  enabled-IsFree true s free = free
  enabled-IsFree false s free = with_error-IsFree s _ free

  define_shared-IsFree :
      (xml : Option Bytes) (s : Session W) → IsFree s → IsFree (define_shared lv xml s).1
  define_shared-IsFree none s free = free
  define_shared-IsFree (some xml) s free =
      let r = called (lv.define_xml s.connected xml) (conn_lock s) in
      enabled-IsFree r.0 (conn_unlock r.1) (record { unlocked = refl; running = once lv s free })

  enable_xml-IsFree :
      (xml : Option Bytes) (s : Session W) → IsFree s → IsFree (enable_xml lv xml s).1
  enable_xml-IsFree none s free = free
  enable_xml-IsFree (some xml) s free =
      if-either (λ (t : Bool × Session W). IsFree t.1) (is_shared xml) (true, s)
        (define_shared lv (shared_xml xml) s) free (define_shared-IsFree _ s free)

  mounted_now-IsFree :
      (name tag fs_type : Bytes) (live : Bool) (s : Session W)
      → IsFree s
      → IsFree (mounted_now lv dv name tag fs_type live s).1
  mounted_now-IsFree name tag fs_type false s free = free
  mounted_now-IsFree name tag fs_type true s free = after-IsFree s _ free

  attached-IsFree :
      (name tag fs_type : Bytes) (live restart : Bool) (ret : ℤ) (s : Session W)
      → IsFree s
      → IsFree (attached lv dv name tag fs_type live restart ret s).1
  attached-IsFree name tag fs_type live restart ret s free =
      let cleared = with_error-IsFree s [] free in
      if-either (λ (t : ℤ × Session W). IsFree t.1) (not (is_zero ret)) _ _
        (with_error-IsFree s _ free)
        (if-either (λ (t : ℤ × Session W). IsFree t.1) restart _ _ cleared
          (mounted_now-IsFree name tag fs_type live _ cleared))

  attach_with-IsFree :
      (name tag fs_type xml : Bytes) (live restart : Bool) (s : Session W)
      → IsFree s
      → IsFree (attach_with lv dv name tag fs_type xml live restart s).1
  attach_with-IsFree name tag fs_type xml live restart s free =
      let r = dv.attach_device name xml live s.libvirt in
      attached-IsFree name tag fs_type live restart r.0 (after s r.1) (after-IsFree s r.1 free)

  attach_for-IsFree :
      (name tag fs_type xml : Bytes) (live : Bool) (s : Session W)
      → IsFree s
      → IsFree (attach_for lv dv name tag fs_type xml live s).1
  attach_for-IsFree name tag fs_type xml false s free =
      attach_with-IsFree name tag fs_type xml false false s free
  attach_for-IsFree name tag fs_type xml true s free =
      if-either (λ (t : ℤ × Session W). IsFree t.1) (is_9p_type fs_type) _ _
        (attach_with-IsFree name tag fs_type xml true false s free)
        (attach_with-IsFree name tag fs_type xml _ _ (after s _) (after-IsFree s _ free))

  add_checked-IsFree :
      (name tag fs_type xml : Bytes) (lacks : Bool) (s : Session W)
      → IsFree s
      → IsFree (add_checked lv dv name tag fs_type xml lacks s).1
  add_checked-IsFree name tag fs_type xml true s free = with_error-IsFree s _ free
  add_checked-IsFree name tag fs_type xml false s free =
      attach_for-IsFree name tag fs_type xml _ (after s _) (after-IsFree s _ free)

  add_on-IsFree :
      (name source tag : Bytes) (read_only : Bool) (fs_type : Bytes) (s : Session W)
      → IsFree s
      → IsFree (add_on lv dv name source tag read_only fs_type s).1
  add_on-IsFree name source tag read_only fs_type s free =
      if-either (λ (t : ℤ × Session W). IsFree t.1) (is_9p_type fs_type) _ _
        (add_checked-IsFree name tag fs_type _ false s free)
        (add_checked-IsFree name tag fs_type _ _ (after s _) (after-IsFree s _ free))

  detach_state-IsFree :
      (name tag xml : Bytes) (live : Bool) (s : Session W)
      → IsFree s
      → IsFree (detach_state lv dv name tag xml live s).1
  detach_state-IsFree name tag xml false s free = after-IsFree s _ free
  detach_state-IsFree name tag xml true s free = after-IsFree s _ free

  remove_found-IsFree :
      (name tag : Bytes) (xml : Option Bytes) (s : Session W)
      → IsFree s
      → IsFree (remove_found lv dv name tag xml s).1
  remove_found-IsFree name tag none s free = free
  remove_found-IsFree name tag (some xml) s free =
      detach_state-IsFree name tag xml _ (after s _) (after-IsFree s _ free)

  remove_in-IsFree :
      (name tag : Bytes) (xml : Option Bytes) (s : Session W)
      → IsFree s
      → IsFree (remove_in lv dv name tag xml s).1
  remove_in-IsFree name tag none s free = free
  remove_in-IsFree name tag (some xml) s free = remove_found-IsFree name tag _ s free

  tree_with-IsFree :
      (iso : Bytes → Bytes) (name : Bytes) (names : Option (List Bytes)) (s : Session W)
      → IsFree s
      → IsFree (tree_with lv iso name names s).1
  tree_with-IsFree iso name none s free = free
  tree_with-IsFree iso name (some []) s free = free
  tree_with-IsFree iso name (some (n ∷ ns)) s free = after-IsFree s _ free

  answer-IsFree : (r : Request) (s : Session W) → IsFree s → IsFree (answer r s)
  unfolding lv_snapshot_tree lv_list_shared_folders lv_enable_shared_memory lv_add_shared_folder
      lv_remove_shared_folder lv_scan_orphan_snapshots lv_cleanup_orphan_snapshots
  answer-IsFree (operation op) s free = perform-IsFree lv op s free
  answer-IsFree (list_snapshots iso name) s free =
      with_domain-IsFree lv name none (list_snapshots_on lv dv iso name) s
        (λ s' f. tree_with-IsFree iso name _ (after s' _) (after-IsFree s' _ f)) free
  answer-IsFree (scan_orphans qemu_img name) s free =
      with_domain-IsFree lv name none (scan_on lv dv.orphan_domain qemu_img name) s
        (λ s' f. after-IsFree s' _ f) free
  answer-IsFree (cleanup_orphans qemu_img name) s free =
      with_domain-IsFree lv name ([], none) (clean_on lv dv.orphan_domain qemu_img name) s
        (λ s' f.
          let r = dv.orphan_domain name s'.libvirt in
          clean_domain-IsFree qemu_img r.0 (after s' r.1) (after-IsFree s' r.1 f))
        free
  answer-IsFree (list_shared_folders left name) s free =
      with_domain-IsFree lv name none (list_on lv dv left name) s
        (λ s' f. listed_folders-IsFree left name _ (after s' _) (after-IsFree s' _ f)) free
  answer-IsFree (enable_shared_memory name) s free =
      with_domain-IsFree lv name false (enable_on lv name) s
        (λ s' f. enable_xml-IsFree _ (after s' _) (after-IsFree s' _ f)) free
  answer-IsFree (add_shared_folder name source tag read_only fs_type) s free =
      with_domain-IsFree lv name (negsuc 0) (add_on lv dv name source tag read_only fs_type) s
        (add_on-IsFree name source tag read_only fs_type) free
  answer-IsFree (remove_shared_folder name tag) s free =
      with_domain-IsFree lv name false (remove_on lv dv name tag) s
        (λ s' f. remove_in-IsFree name tag _ (after s' _) (after-IsFree s' _ f)) free
  answer-IsFree (mount_shared_folder name tag fs_type) s free =
      mount-IsFree lv dv.agent name tag fs_type s free
  answer-IsFree (unmount_shared_folder name tag) s free = unmount-IsFree lv dv.agent name tag s free
  answer-IsFree (check_mount_status name folders) s free =
      check_mount-IsFree lv dv.agent name folders s free
  answer-IsFree (check_automount_status name) s free =
      check_automount-IsFree lv dv.agent name s free
  answer-IsFree (setup_automount name) s free = setup-IsFree lv dv.agent name s free
  answer-IsFree (detect_guest_os name) s free = detect-IsFree lv dv.agent name s free

  -- Whatever libvirt and the guest answer, any sequence of operations on machines, snapshots, orphaned
  -- snapshots, the NVRAM, shared folders and the guest that starts with the lock of the connection free
  -- gives it back after each of them, on every path through it, and none locks it while it holds it.
  pub answer_all-IsFree : (rs : List Request) (s : Session W) → IsFree s → IsFree (answer_all rs s)
  unfolding answer_all
  answer_all-IsFree [] s free = free
  answer_all-IsFree (r ∷ rest) s free = answer_all-IsFree rest (answer r s) (answer-IsFree r s free)
