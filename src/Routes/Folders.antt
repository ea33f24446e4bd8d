-- ===== src/Routes/Folders.antt =====
-- src/routes.c: the handlers of shared folders.
use qemu_snapshot_web_manage.Prelude.{
  ℕ, Bool, true, false, Option, none, some, List, [], ◌∷◌, ◌++◌, ◌==◌, if◌then◌else◌, Bytes, codes,
  snprintf_s, strcmp_eq,
}
use qemu_snapshot_web_manage.Prelude.Int.{ℤ, pos, negsuc}
use qemu_snapshot_web_manage.Util.Escape.{html_escape}
use qemu_snapshot_web_manage.Backend.{SharedFolder, GuestOs, unknown, VmBackend, Call}
use qemu_snapshot_web_manage.Routes.{
  Response, Host, Site, success, error, shared_folders, add_folder_form, shared_memory_prompt,
  restart_needed, guest_agent_help, send_html, send_html_trigger, at,
}
use qemu_snapshot_web_manage.Routes.Form.{form_value}
use qemu_snapshot_web_manage.Routes.Snapshots.{no_backend}

abbrev updating : Bytes
updating = codes "sharedFoldersUpdating"

abbrev folders_changed : Bytes
folders_changed = codes "sharedFoldersChanged"

-- `(s && str_eq(s, "1"))`
abbrev is_one : Option Bytes → Bool
is_one none = false
is_one (some s) = strcmp_eq s (codes "1")

-- The type that is asked for, or virtiofs.
abbrev effective_fs : Option Bytes → Bytes
effective_fs none = codes "virtiofs"
effective_fs (some []) = codes "virtiofs"
effective_fs (some (c ∷ fs_type)) = c ∷ fs_type

abbrev fs_or_default : Option Bytes → Bytes
fs_or_default none = codes "virtiofs"
fs_or_default (some fs_type) = fs_type

abbrev has_tag : Option Bytes → Bytes → Bool
has_tag none mount_tag = false
has_tag (some tag) mount_tag = strcmp_eq tag mount_tag

-- The type of the first folder with the tag.
unfoldable pub fs_type_in : Bytes → List SharedFolder → Bytes
fs_type_in mount_tag [] = codes "virtiofs"
fs_type_in mount_tag (f ∷ folders) =
    if has_tag f.mount_tag mount_tag then fs_or_default f.fs_type else fs_type_in mount_tag folders

abbrev fs_type_of : Bytes → Option (List SharedFolder) → Bytes
fs_type_of mount_tag none = codes "virtiofs"
fs_type_of mount_tag (some folders) = fs_type_in mount_tag folders

abbrev failure : Bytes → Bytes
failure [] = codes "Failed to add shared folder (check server logs for details)"
failure (c ∷ detail) = snprintf_s 1280 (codes "Failed to add shared folder: " ++ c ∷ detail)

-- The answer to a new folder, by the result of the backend: -2 asks for shared memory, 1 for a
-- restart, any other negative number is a failure.
unfoldable pub added : Bytes → Bytes → Bytes → Bytes → Bool → ℤ → Bytes → Response
added vm_name source_dir mount_tag fs read_only (negsuc n) err =
    if n == 1
    then send_html 200 (
        shared_memory_prompt (html_escape (some vm_name)) (html_escape (some source_dir))
          (html_escape (some mount_tag)) (html_escape (some fs)) read_only)
    else send_html 500 (error (failure err))
added vm_name source_dir mount_tag fs read_only (pos n) err =
    if n == 1
    then send_html_trigger 200 (restart_needed (html_escape (some vm_name))) updating
    else send_html_trigger 200 (success (codes "Shared folder added")) updating

abbrev removed : Bool → Response
removed false = send_html 500 (error (codes "Failed to remove shared folder"))
removed true = send_html_trigger 200 (success (codes "Shared folder removed")) folders_changed

module _ {W : Type 0} where
  abbrev with_mounts :
      Option (Bytes → List SharedFolder → Call W (List SharedFolder))
      → Bytes
      → List SharedFolder
      → W
      → List SharedFolder × W
  with_mounts none vm_name folders w = (folders, w)
  with_mounts (some check) vm_name folders w = check vm_name folders w

  abbrev automount_of : Option (Bytes → Call W ℤ) → Bytes → W → ℤ × W
  automount_of none vm_name w = (negsuc 0, w)
  automount_of (some check) vm_name w = check vm_name w

  abbrev shown_folders :
      VmBackend W → Bytes → Option (List SharedFolder) → Site W → Response × Site W
  shown_folders be vm_name none s =
      (send_html 500 (error (codes "Failed to list shared folders")), s)
  shown_folders be vm_name (some folders) s =
      let (checked, w) = with_mounts be.check_mount_status vm_name folders s.hypervisor in
      let (active, w') = automount_of be.check_automount_status vm_name w in
      (send_html 200 (shared_folders vm_name checked active), at s w')

  abbrev folders_of : Option (VmBackend W) → Bytes → Site W → Response × Site W
  folders_of none vm_name s = (send_html 500 (error (codes "Failed to list shared folders")), s)
  folders_of (some be) vm_name s =
      let (folders, w) = be.list_shared_folders vm_name s.hypervisor in
      shown_folders be vm_name folders (at s w)

  unfoldable pub handle_shared_folders : Host W → Bytes → Site W → Response × Site W
  handle_shared_folders h vm_name s = folders_of h.backend vm_name s

  unfoldable pub handle_shared_folder_form : Bytes → Site W → Response × Site W
  handle_shared_folder_form vm_name s = (send_html 200 (add_folder_form vm_name), s)

  abbrev memory_first : Host W → Bytes → Bool → W → W
  memory_first h vm_name false w = w
  memory_first h vm_name true w = (h.lv.enable_shared_memory vm_name w).1

  abbrev required : Site W → Response × Site W
  required s = (send_html 400 (error (codes "Source directory and mount tag are required")), s)

  -- The folder of a form whose two names are not empty.
  abbrev add_complete :
      Host W
      → VmBackend W
      → Bytes
      → Bytes
      → Bytes
      → Option Bytes
      → Bool
      → Bool
      → Site W
      → Response × Site W
  add_complete h be vm_name source_dir mount_tag fs_type read_only confirmed s =
      let fs = effective_fs fs_type in
      let w = memory_first h vm_name confirmed s.hypervisor in
      let (rc, w') = be.add_shared_folder vm_name source_dir mount_tag read_only fs w in
      (added vm_name source_dir mount_tag fs read_only rc (h.lv.get_last_error w'), at s w')

  abbrev add_checked :
      Host W
      → VmBackend W
      → Bytes
      → Option Bytes
      → Option Bytes
      → Option Bytes
      → Bool
      → Bool
      → Site W
      → Response × Site W
  add_checked h be vm_name (some (c ∷ source_dir)) (some (d ∷ mount_tag)) fs_type read_only
        confirmed s =
      add_complete h be vm_name (c ∷ source_dir) (d ∷ mount_tag) fs_type read_only confirmed s
  add_checked h be vm_name _ _ fs_type read_only confirmed s = required s

  abbrev add_of : Host W → Option (VmBackend W) → Bytes → Option Bytes → Site W → Response × Site W
  add_of h none vm_name body s = (send_html 500 no_backend, s)
  add_of h (some be) vm_name body s =
      add_checked h be vm_name (form_value body (codes "source_dir"))
        (form_value body (codes "mount_tag")) (form_value body (codes "fs_type"))
        (is_one (form_value body (codes "read_only")))
        (is_one (form_value body (codes "confirm_shared_memory"))) s

  unfoldable pub handle_add_shared_folder :
      Host W → Bytes → Option Bytes → Site W → Response × Site W
  handle_add_shared_folder h vm_name body s = add_of h h.backend vm_name body s

  abbrev remove_of : Option (VmBackend W) → Bytes → Bytes → W → Bool × W
  remove_of none vm_name mount_tag w = (false, w)
  remove_of (some be) vm_name mount_tag w = be.remove_shared_folder vm_name mount_tag w

  unfoldable pub handle_remove_shared_folder : Host W → Bytes → Bytes → Site W → Response × Site W
  handle_remove_shared_folder h vm_name mount_tag s =
      let (done, w) = remove_of h.backend vm_name mount_tag s.hypervisor in (removed done, at s w)

  abbrev guest_os_of : Option (Bytes → Call W GuestOs) → Bytes → W → GuestOs × W
  guest_os_of none vm_name w = (unknown, w)
  guest_os_of (some detect) vm_name w = detect vm_name w

  -- The help for a failed call inside the guest.
  abbrev helped : VmBackend W → ℕ → Bytes → Bytes → Bytes → Site W → Response × Site W
  helped be status operation err vm_name s =
      let (gos, w) = guest_os_of be.detect_guest_os vm_name s.hypervisor in
      (send_html status (guest_agent_help operation err gos), at s w)

  abbrev mounted_answer : Host W → VmBackend W → Bytes → Bytes → Bool → Site W → Response × Site W
  mounted_answer h be vm_name mount_tag false s =
      helped be 200 (codes "mount shared folder") (h.lv.get_last_error s.hypervisor) vm_name s
  mounted_answer h be vm_name mount_tag true s = (
    send_html_trigger 200
        (success (snprintf_s 128 (codes "Mounted successfully at /media/" ++ mount_tag))) updating,
    s,
  )

  abbrev mount_with :
      Host W
      → VmBackend W
      → Option (Bytes → Bytes → Bytes → Call W Bool)
      → Bytes
      → Bytes
      → Site W
      → Response × Site W
  mount_with h be none vm_name mount_tag s =
      (send_html 400 (error (codes "Mount not supported by this backend")), s)
  mount_with h be (some mount) vm_name mount_tag s =
      let (folders, w) = be.list_shared_folders vm_name s.hypervisor in
      let (done, w') = mount vm_name mount_tag (fs_type_of mount_tag folders) w in
      mounted_answer h be vm_name mount_tag done (at s w')

  abbrev mount_of : Host W → Option (VmBackend W) → Bytes → Bytes → Site W → Response × Site W
  mount_of h none vm_name mount_tag s =
      (send_html 400 (error (codes "Mount not supported by this backend")), s)
  mount_of h (some be) vm_name mount_tag s =
      mount_with h be be.mount_shared_folder vm_name mount_tag s

  unfoldable pub handle_mount_shared_folder : Host W → Bytes → Bytes → Site W → Response × Site W
  handle_mount_shared_folder h vm_name mount_tag s = mount_of h h.backend vm_name mount_tag s

  abbrev unmounted_answer : Host W → VmBackend W → Bytes → Bool → Site W → Response × Site W
  unmounted_answer h be vm_name false s =
      helped be 200 (codes "unmount shared folder") (h.lv.get_last_error s.hypervisor) vm_name s
  unmounted_answer h be vm_name true s = (
    send_html_trigger 200 (success (codes "Unmounted successfully inside guest")) folders_changed,
    s,
  )

  abbrev unmount_with :
      Host W
      → VmBackend W
      → Option (Bytes → Bytes → Call W Bool)
      → Bytes
      → Bytes
      → Site W
      → Response × Site W
  unmount_with h be none vm_name mount_tag s =
      (send_html 400 (error (codes "Unmount not supported by this backend")), s)
  unmount_with h be (some unmount) vm_name mount_tag s =
      let (done, w) = unmount vm_name mount_tag s.hypervisor in
      unmounted_answer h be vm_name done (at s w)

  abbrev unmount_of : Host W → Option (VmBackend W) → Bytes → Bytes → Site W → Response × Site W
  unmount_of h none vm_name mount_tag s =
      (send_html 400 (error (codes "Unmount not supported by this backend")), s)
  unmount_of h (some be) vm_name mount_tag s =
      unmount_with h be be.unmount_shared_folder vm_name mount_tag s

  unfoldable pub handle_unmount_shared_folder : Host W → Bytes → Bytes → Site W → Response × Site W
  handle_unmount_shared_folder h vm_name mount_tag s = unmount_of h h.backend vm_name mount_tag s

  abbrev detail_or_last : Host W → Option Bytes → W → Bytes
  detail_or_last h none w = h.lv.get_last_error w
  detail_or_last h (some msg) w = msg

  abbrev setup_answer :
      Host W → VmBackend W → Bytes → Bool → Option Bytes → Site W → Response × Site W
  setup_answer h be vm_name false msg s =
      helped be 500 (codes "setup auto-mount") (detail_or_last h msg s.hypervisor) vm_name s
  setup_answer h be vm_name true msg s = (
    send_html_trigger 200 (success (codes "Auto-mount service installed and started in guest VM"))
        updating,
    s,
  )

  abbrev setup_with :
      Host W
      → VmBackend W
      → Option (Bytes → Call W (Bool × Option Bytes))
      → Bytes
      → Site W
      → Response × Site W
  setup_with h be none vm_name s =
      (send_html 500 (error (codes "Backend does not support auto-mount setup")), s)
  setup_with h be (some setup) vm_name s =
      let ((done, msg), w) = setup vm_name s.hypervisor in
      setup_answer h be vm_name done msg (at s w)

  abbrev setup_of : Host W → Option (VmBackend W) → Bytes → Site W → Response × Site W
  setup_of h none vm_name s =
      (send_html 500 (error (codes "Backend does not support auto-mount setup")), s)
  setup_of h (some be) vm_name s = setup_with h be be.setup_automount vm_name s

  unfoldable pub handle_automount_setup : Host W → Bytes → Site W → Response × Site W
  handle_automount_setup h vm_name s = setup_of h h.backend vm_name s
