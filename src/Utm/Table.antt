-- ===== src/Utm/Table.antt =====
-- The table of operations of src/utm_backend.c. `ENOTSUP` is the number of that error.
use qemu_snapshot_web_manage.Prelude.{ℕ, Bool, true, false, Option, none, some, Bytes}
use qemu_snapshot_web_manage.Prelude.Int.{ℤ, neg_ℕ}
use qemu_snapshot_web_manage.Snapshot.{Node, SnapType}
use qemu_snapshot_web_manage.Backend.{SharedFolder, VmBackend, Call}
use qemu_snapshot_web_manage.Utm.{
  System, utm_list_vms, utm_vm_start, utm_vm_stop, utm_vm_pause, utm_vm_force_stop, utm_vm_resume,
}
use qemu_snapshot_web_manage.Utm.Folders.{utm_list_shared_folders}

module _ {W : Type 0} where
  unfoldable pub utm_list_snapshots : Bytes → Call W (Option (Option Node))
  utm_list_snapshots vm_name w = (none, w)

  unfoldable pub utm_create_snapshot : Bytes → Bytes → Bytes → SnapType → Call W Bool
  utm_create_snapshot vm_name snap_name description type w = (false, w)

  unfoldable pub utm_delete_snapshot : Bytes → Bytes → Bool → Call W Bool
  utm_delete_snapshot vm_name snap_name auto_merge w = (false, w)

  unfoldable pub utm_revert_snapshot : Bytes → Bytes → Call W Bool
  utm_revert_snapshot vm_name snap_name w = (false, w)

  unfoldable pub utm_merge_snapshot : Bytes → Bytes → Call W Bool
  utm_merge_snapshot vm_name snap_name w = (false, w)

  unfoldable pub utm_add_shared_folder : ℕ → Bytes → Bytes → Bytes → Bool → Bytes → Call W ℤ
  utm_add_shared_folder enotsup vm_name source_dir mount_tag read_only fs_type w =
      (neg_ℕ enotsup, w)

  unfoldable pub utm_remove_shared_folder : Bytes → Bytes → Call W Bool
  utm_remove_shared_folder vm_name mount_tag w = (false, w)

  -- The entries that the initialiser leaves out are `NULL`.
  unfoldable pub utm_be : System W → (ℕ → SharedFolder) → ℕ → VmBackend W
  utm_be sys left enotsup = record {
    list_vms = utm_list_vms sys;
    vm_start = utm_vm_start sys;
    vm_stop = utm_vm_stop sys;
    vm_force_stop = some (utm_vm_force_stop sys);
    vm_pause = utm_vm_pause sys;
    vm_resume = some (utm_vm_resume sys);
    list_snapshots = utm_list_snapshots;
    create_snapshot = utm_create_snapshot;
    delete_snapshot = utm_delete_snapshot;
    revert_snapshot = utm_revert_snapshot;
    merge_snapshot = utm_merge_snapshot;
    list_shared_folders = utm_list_shared_folders sys left;
    add_shared_folder = utm_add_shared_folder enotsup;
    remove_shared_folder = utm_remove_shared_folder;
    mount_shared_folder = none;
    unmount_shared_folder = none;
    check_mount_status = none;
    check_automount_status = none;
    setup_automount = none;
    detect_guest_os = none;
  }

  -- Only a build for macOS has the backend.
  unfoldable pub utm_backend_get : Bool → System W → (ℕ → SharedFolder) → ℕ → Option (VmBackend W)
  utm_backend_get true sys left enotsup = some (utm_be sys left enotsup)
  utm_backend_get false sys left enotsup = none
