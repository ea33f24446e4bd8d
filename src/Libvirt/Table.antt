-- ===== src/Libvirt/Table.antt =====
-- src/libvirt_backend.c: the tree of the snapshots of a machine, and the table of operations.
use qemu_snapshot_web_manage.Prelude.{Bool, false, Option, none, some, List, [], ◌∷◌, Bytes, ℕ}
use qemu_snapshot_web_manage.Snapshot.{Node}
use qemu_snapshot_web_manage.Backend.{VmBackend, SharedFolder}
use qemu_snapshot_web_manage.Libvirt.Listing.{Listed}
use qemu_snapshot_web_manage.Libvirt.Listing.Tree.{tree_of}
use qemu_snapshot_web_manage.Libvirt.Session.{
  Libvirt, Session, after, with_domain, lv_list_vms, lv_vm_start, lv_vm_stop, lv_vm_force_stop,
  lv_vm_pause, lv_vm_resume,
}
use qemu_snapshot_web_manage.Libvirt.Changes.{
  lv_create_snapshot, lv_delete_snapshot, lv_revert_snapshot, lv_merge_snapshot,
}
use qemu_snapshot_web_manage.Libvirt.Folders.Calls.{
  Devices, lv_list_shared_folders, lv_add_shared_folder, lv_remove_shared_folder,
}
use qemu_snapshot_web_manage.Libvirt.Guest.Mounts.{
  lv_mount_shared_folder, lv_unmount_shared_folder, lv_check_mount_status,
}
use qemu_snapshot_web_manage.Libvirt.Guest.Os.{lv_detect_guest_os}
use qemu_snapshot_web_manage.Libvirt.Guest.Automount.{lv_check_automount_status, lv_setup_automount}

module _ {W : Type 0} where
  -- The XML of each snapshot, in libvirt's order.
  unfoldable pub with_xml : Libvirt W → Bytes → List Bytes → W → List Listed × W
  with_xml lv vm_name [] w = ([], w)
  with_xml lv vm_name (name ∷ names) w =
      let (xml, w1) = lv.snapshot_xml_desc vm_name name false w in
      let (rest, w2) = with_xml lv vm_name names w1 in
      (record { name = name; xml = xml } ∷ rest, w2)

  abbrev pub tree_with :
      Libvirt W
      → (Bytes → Bytes)
      → Bytes
      → Option (List Bytes)
      → Session W
      → Option (Option Node) × Session W
  tree_with lv iso vm_name none s = (none, s)
  tree_with lv iso vm_name (some []) s = (some none, s)
  tree_with lv iso vm_name (some (name ∷ names)) s =
      let (current_name, w1) = lv.snapshot_current vm_name s.libvirt in
      let (snaps, w2) = with_xml lv vm_name (name ∷ names) w1 in
      (some (tree_of iso current_name snaps), after s w2)

  abbrev pub list_snapshots_on :
      Libvirt W → Devices W → (Bytes → Bytes) → Bytes → Session W → Option (Option Node) × Session W
  list_snapshots_on lv dv iso vm_name s =
      let (names, w) = dv.list_all_snapshots vm_name s.libvirt in
      tree_with lv iso vm_name names (after s w)

  -- `lv_list_snapshots` with the calls that it makes.
  unfoldable pub lv_snapshot_tree :
      Libvirt W → Devices W → (Bytes → Bytes) → Bytes → Session W → Option (Option Node) × Session W
  lv_snapshot_tree lv dv iso vm_name =
      with_domain lv vm_name none (list_snapshots_on lv dv iso vm_name)

  abbrev mounts_of : (Bool × List SharedFolder) × Session W → List SharedFolder × Session W
  mounts_of (checked, s) = (checked.1, s)

  unfoldable pub libvirt_be :
      Libvirt W → Devices W → (ℕ → SharedFolder) → (Bytes → Bytes) → VmBackend (Session W)
  libvirt_be lv dv left iso = record {
    list_vms = lv_list_vms lv;
    vm_start = lv_vm_start lv;
    vm_stop = lv_vm_stop lv;
    vm_force_stop = some (lv_vm_force_stop lv);
    vm_pause = lv_vm_pause lv;
    vm_resume = some (lv_vm_resume lv);
    list_snapshots = lv_snapshot_tree lv dv iso;
    create_snapshot =
        λ vm_name name description type. lv_create_snapshot lv vm_name name (some description) type;
    delete_snapshot = λ vm_name name auto_merge. lv_delete_snapshot lv vm_name name;
    revert_snapshot = lv_revert_snapshot lv;
    merge_snapshot = lv_merge_snapshot lv;
    list_shared_folders = lv_list_shared_folders lv dv left;
    add_shared_folder = lv_add_shared_folder lv dv;
    remove_shared_folder = lv_remove_shared_folder lv dv;
    mount_shared_folder = some (lv_mount_shared_folder lv dv.agent);
    unmount_shared_folder = some (lv_unmount_shared_folder lv dv.agent);
    check_mount_status =
        some (λ vm_name folders s. mounts_of (lv_check_mount_status lv dv.agent vm_name folders s));
    check_automount_status = some (lv_check_automount_status lv dv.agent);
    setup_automount = some (lv_setup_automount lv dv.agent);
    detect_guest_os = some (lv_detect_guest_os lv dv.agent);
  }
