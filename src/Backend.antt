-- ===== src/Backend.antt =====
-- src/vm_backend.h and src/vm_backend.c: what a backend offers to the routes. The state of the
-- hypervisor is `W`; a call takes it and gives its result with the state after it.
use qemu_snapshot_web_manage.Prelude.{ℕ, Bool, Option, List, Bytes}
use qemu_snapshot_web_manage.Prelude.Int.{ℤ}
use qemu_snapshot_web_manage.Snapshot.{Node, SnapType}
use qemu_snapshot_web_manage.VmState.{VmState}

pub record VmInfo : Type 0 where
  pub name : Bytes
  pub uuid : Bytes
  pub state : VmState
  pub vcpus : ℕ
  pub memory_kb : ℕ

pub record SharedFolder : Type 0 where
  pub source_dir : Option Bytes
  pub mount_tag : Option Bytes
  pub fs_type : Option Bytes
  pub read_only : Bool
  pub mounted : ℤ
  pub needs_restart : Bool

pub data GuestOs : Type 0 where
  linux_systemd linux_openrc linux_other windows freebsd macos unknown : GuestOs

abbrev pub Call : Type 0 → Type 0 → Type 0
Call W A = W → A × W

-- The calls that return an `int` give `true` for 0, and a list is `none` where its call fails. The
-- entries that the routes compare with `NULL` are optional.
pub record VmBackend (W : Type 0) : Type 0 where
  pub list_vms : Call W (Option (List VmInfo))
  pub vm_start : Bytes → Call W Bool
  pub vm_stop : Bytes → Call W Bool
  pub vm_force_stop : Option (Bytes → Call W Bool)
  pub vm_pause : Bytes → Call W Bool
  pub vm_resume : Option (Bytes → Call W Bool)
  pub list_snapshots : Bytes → Call W (Option (Option Node))
  pub create_snapshot : Bytes → Bytes → Bytes → SnapType → Call W Bool
  pub delete_snapshot : Bytes → Bytes → Bool → Call W Bool
  pub revert_snapshot : Bytes → Bytes → Call W Bool
  pub merge_snapshot : Bytes → Bytes → Call W Bool
  pub list_shared_folders : Bytes → Call W (Option (List SharedFolder))
  pub add_shared_folder : Bytes → Bytes → Bytes → Bool → Bytes → Call W ℤ
  pub remove_shared_folder : Bytes → Bytes → Call W Bool
  pub mount_shared_folder : Option (Bytes → Bytes → Bytes → Call W Bool)
  pub unmount_shared_folder : Option (Bytes → Bytes → Call W Bool)
  pub check_mount_status : Option (Bytes → List SharedFolder → Call W (List SharedFolder))
  pub check_automount_status : Option (Bytes → Call W ℤ)
  pub setup_automount : Option (Bytes → Call W (Bool × Option Bytes))
  pub detect_guest_os : Option (Bytes → Call W GuestOs)

-- The functions of src/libvirt_backend.h that the routes call past the table.
pub record LvCalls (W : Type 0) : Type 0 where
  pub get_last_error : W → Bytes
  pub convert_nvram : Bytes → Call W ℤ
  pub check_nvram_format : Bytes → Call W ℤ
  pub edit_snapshot_description : Bytes → Bytes → Bytes → Call W Bool
  pub enable_shared_memory : Bytes → Call W Bool
  pub scan_orphan_snapshots : Bytes → Call W (Option (List Bytes))
  pub cleanup_orphan_snapshots : Bytes → Call W (Option ℕ)
