-- ===== src/Routes/Lifecycle.antt =====
-- src/routes.c: the list of machines, their life cycle, the NVRAM and the orphaned snapshots.
use qemu_snapshot_web_manage.Prelude.{
  ℕ, Bool, true, false, Option, none, some, [], ◌∷◌, List, [], ◌++◌, ◌==◌, if◌then◌else◌, Bytes,
  codes, snprintf_s,
}
use qemu_snapshot_web_manage.Prelude.Int.{ℤ, pos, negsuc}
use qemu_snapshot_web_manage.Backend.{VmInfo, VmBackend, Call}
use qemu_snapshot_web_manage.Server.{show_long}
use qemu_snapshot_web_manage.Routes.{
  Response, Host, Site, text, success, error, vm_list, orphan_warning, send_html, send_html_trigger,
  changed, at, error_or_unknown,
}

abbrev listed : Option (List VmInfo) → Response
listed none = send_html 500 (error (codes "Failed to list VMs"))
listed (some vms) = send_html 200 (vm_list vms)

-- The answer to a call, where `failed` is the message if it fails.
abbrev answer : Bool → Bytes → Bytes → Response
answer true done failed = send_html_trigger 200 (success done) changed
answer false done failed = send_html_trigger 500 (error failed) changed

-- The dash and the check mark of the messages, in UTF-8.
abbrev dash : Bytes
dash = 0xe2 ∷ 0x80 ∷ 0x94 ∷ []

abbrev check_mark : Bytes
check_mark = 0xe2 ∷ 0x9c ∷ 0x93 ∷ []

-- 1: nothing to do; 0: converted; anything else is a failure.
abbrev converted : ℤ → Bytes → Response
converted (pos n) err =
    if n == 1
    then send_html 200 (
        success
          (codes "NVRAM is already in qcow2 format " ++ (dash ++ codes " no conversion needed")))
    else if n == 0
    then send_html_trigger 200
        (success (
          check_mark
          ++ codes
              " NVRAM converted to qcow2. You can now start the VM and take internal snapshots."))
        changed
    else send_html 500 (error (snprintf_s 1200 (codes "NVRAM conversion failed: " ++ err)))
converted (negsuc n) err =
    send_html 500 (error (snprintf_s 1200 (codes "NVRAM conversion failed: " ++ err)))

abbrev scanned : Bytes → Option (List Bytes) → Response
scanned vm_name none = send_html 200 (text [])
scanned vm_name (some names) = send_html 200 (orphan_warning vm_name names)

abbrev cleaned_message : ℕ → Bytes
cleaned_message n = snprintf_s 128 (
    codes "Cleaned "
    ++ (show_long (pos n)
        ++ (codes " orphan snapshot"
            ++ ((if n == 1 then [] else codes "s") ++ codes " from disk files"))))

abbrev cleaned : Option ℕ → Bytes → Response
cleaned none err = send_html 500 (error (snprintf_s 512 (codes "Cleanup failed: " ++ err)))
cleaned (some n) err =
    if n == 0
    then send_html 200 (success (codes "No orphan snapshots found"))
    else send_html_trigger 200 (success (cleaned_message n)) changed

module _ {W : Type 0} where
  abbrev list_vms_of : Option (VmBackend W) → Site W → Response × Site W
  list_vms_of none s = (listed none, s)
  list_vms_of (some be) s = let (vms, w) = be.list_vms s.hypervisor in (listed vms, at s w)

  unfoldable pub handle_list_vms : Host W → Site W → Response × Site W
  handle_list_vms h s = list_vms_of h.backend s

  -- A call that the backend may not have; without it the handler fails as it does where the call fails.
  abbrev try_call : Option (Bytes → Call W Bool) → Bytes → W → Bool × W
  try_call none vm_name w = (false, w)
  try_call (some call) vm_name w = call vm_name w

  abbrev vm_start_of : Option (VmBackend W) → Option (Bytes → Call W Bool)
  vm_start_of none = none
  vm_start_of (some be) = some be.vm_start

  abbrev vm_stop_of : Option (VmBackend W) → Option (Bytes → Call W Bool)
  vm_stop_of none = none
  vm_stop_of (some be) = some be.vm_stop

  abbrev vm_pause_of : Option (VmBackend W) → Option (Bytes → Call W Bool)
  vm_pause_of none = none
  vm_pause_of (some be) = some be.vm_pause

  abbrev vm_resume_of : Option (VmBackend W) → Option (Bytes → Call W Bool)
  vm_resume_of none = none
  vm_resume_of (some be) = be.vm_resume

  abbrev vm_force_stop_of : Option (VmBackend W) → Option (Bytes → Call W Bool)
  vm_force_stop_of none = none
  vm_force_stop_of (some be) = be.vm_force_stop

  unfoldable pub handle_vm_start : Host W → Bytes → Site W → Response × Site W
  handle_vm_start h vm_name s =
      let (done, w) = try_call (vm_start_of h.backend) vm_name s.hypervisor in
      (
        answer done (codes "VM started")
            (snprintf_s 512 (codes "Failed to start VM: " ++ error_or_unknown h w)),
        at s w,
      )

  unfoldable pub handle_vm_stop : Host W → Bytes → Site W → Response × Site W
  handle_vm_stop h vm_name s =
      let (done, w) = try_call (vm_stop_of h.backend) vm_name s.hypervisor in
      (
        answer done (codes "VM stopped")
            (snprintf_s 512 (codes "Failed to stop VM: " ++ error_or_unknown h w)),
        at s w,
      )

  unfoldable pub handle_vm_pause : Host W → Bytes → Site W → Response × Site W
  handle_vm_pause h vm_name s =
      let (done, w) = try_call (vm_pause_of h.backend) vm_name s.hypervisor in
      (answer done (codes "VM paused") (codes "Failed to pause VM"), at s w)

  unfoldable pub handle_vm_resume : Host W → Bytes → Site W → Response × Site W
  handle_vm_resume h vm_name s =
      let (done, w) = try_call (vm_resume_of h.backend) vm_name s.hypervisor in
      (answer done (codes "VM resumed") (codes "Failed to resume VM"), at s w)

  unfoldable pub handle_vm_force_stop : Host W → Bytes → Site W → Response × Site W
  handle_vm_force_stop h vm_name s =
      let (done, w) = try_call (vm_force_stop_of h.backend) vm_name s.hypervisor in
      (answer done (codes "VM force-stopped") (codes "Failed to force-stop VM"), at s w)

  unfoldable pub handle_convert_nvram : Host W → Bytes → Site W → Response × Site W
  handle_convert_nvram h vm_name s =
      let (rc, w) = h.lv.convert_nvram vm_name s.hypervisor in
      (converted rc (h.lv.get_last_error w), at s w)

  unfoldable pub handle_orphan_check : Host W → Bytes → Site W → Response × Site W
  handle_orphan_check h vm_name s =
      let (names, w) = h.lv.scan_orphan_snapshots vm_name s.hypervisor in
      (scanned vm_name names, at s w)

  unfoldable pub handle_orphan_cleanup : Host W → Bytes → Site W → Response × Site W
  handle_orphan_cleanup h vm_name s =
      let (count, w) = h.lv.cleanup_orphan_snapshots vm_name s.hypervisor in
      (cleaned count (h.lv.get_last_error w), at s w)
