-- ===== src/Routes/Changes.antt =====
-- src/routes.c: the handlers that edit, delete, revert and merge a snapshot.
pub mod Clean
use qemu_snapshot_web_manage.Prelude.{
  Bool, true, false, Option, none, some, List, [], ◌∷◌, ◌++◌, if◌then◌else◌, Bytes, codes,
  snprintf_s, strcmp_eq,
}
use qemu_snapshot_web_manage.VmState.{VmState, running, paused, shutoff, other}
use qemu_snapshot_web_manage.Snapshot.{Node, internal}
use qemu_snapshot_web_manage.Snapshot.Export.{or_empty}
use qemu_snapshot_web_manage.Util.Escape.{html_escape}
use qemu_snapshot_web_manage.Backend.{VmInfo, VmBackend, LvCalls, Call}
use qemu_snapshot_web_manage.Routes.{
  Response, Host, Site, Page, success, error, edit_form, updated, revert_running, revert_dirty,
  revert_clean, reverted, send_html, send_html_trigger, changed, at, state_of, or_state, mark_clean,
  vm_is_dirty, error_or_unknown,
}
use qemu_snapshot_web_manage.Routes.Form.{form_value}
use qemu_snapshot_web_manage.Routes.Snapshots.{no_backend, node_in, description_of}

-- The states in which the snapshots of a machine cannot be deleted, and reverted to.
abbrev pub blocks_delete : Option VmState → Bool
blocks_delete (some running) = true
blocks_delete (some paused) = true
blocks_delete _ = false

abbrev pub blocks_revert : Option VmState → Bool
blocks_revert (some running) = true
blocks_revert _ = false

-- The form with the description as it is now; `none` and `some none` as for the detail.
abbrev shown_form : Bytes → Bytes → Option (Option Node) → Response
shown_form vm_name snap_name none = send_html 500 (error (codes "Failed to load snapshots"))
shown_form vm_name snap_name (some none) = send_html 404 (error (codes "Snapshot not found"))
shown_form vm_name snap_name (some (some snap)) = send_html 200 (
    edit_form (html_escape (some vm_name)) (html_escape (some snap_name))
      (html_escape (some (description_of snap))))

-- The page that asks before a revert.
abbrev confirm_page : Bytes → Bytes → Bool → Bool → Page
confirm_page esc_vm esc_snap true is_dirty = revert_running esc_vm esc_snap
confirm_page esc_vm esc_snap false true = revert_dirty esc_vm esc_snap
confirm_page esc_vm esc_snap false false = revert_clean esc_vm esc_snap

abbrev is_running : VmState → Bool
is_running running = true
is_running _ = false

-- `save && str_eq(save, "1")`
abbrev pub wants_save : Option Bytes → Bool
wants_save none = false
wants_save (some save) = strcmp_eq save (codes "1")

abbrev revert_message : Bool → Bytes → Bytes
revert_message true snap_name =
    snprintf_s 256 (codes "Current state saved. Reverted to '" ++ (snap_name ++ codes "'"))
revert_message false snap_name = snprintf_s 256 (codes "Reverted to '" ++ (snap_name ++ codes "'"))

abbrev updated_page : Option (Bytes × Node × VmState) → Page
updated_page none = success (codes "Description updated")
updated_page (some (vm_name, snap, st)) = updated vm_name snap st

module _ {W : Type 0} where
  abbrev edit_form_of : Option (VmBackend W) → Bytes → Bytes → Site W → Response × Site W
  edit_form_of none vm_name snap_name s = (shown_form vm_name snap_name none, s)
  edit_form_of (some be) vm_name snap_name s =
      let (tree, w) = be.list_snapshots vm_name s.hypervisor in
      (shown_form vm_name snap_name (node_in snap_name tree), at s w)

  unfoldable pub handle_edit_snapshot_form : Host W → Bytes → Bytes → Site W → Response × Site W
  handle_edit_snapshot_form h vm_name snap_name s = edit_form_of h.backend vm_name snap_name s

  -- The snapshot after a change, with the state of its machine, `default` if it is not listed.
  abbrev detail_with :
      VmBackend W → Bytes → VmState → Option (Option Node) → W → Option (Bytes × Node × VmState) × W
  detail_with be vm_name default (some (some snap)) w =
      let (vms, w') = be.list_vms w in
      (some (vm_name, snap, or_state (state_of vm_name vms) default), w')
  detail_with be vm_name default _ w = (none, w)

  abbrev pub detail_after :
      Option (VmBackend W) → Bytes → Bytes → VmState → W → Option (Bytes × Node × VmState) × W
  detail_after none vm_name snap_name default w = (none, w)
  detail_after (some be) vm_name snap_name default w =
      let (tree, w') = be.list_snapshots vm_name w in
      detail_with be vm_name default (node_in snap_name tree) w'

  abbrev edited : Host W → Bytes → Bytes → Bool → W → Response × W
  edited h vm_name snap_name false w = (
    send_html 500
        (error (snprintf_s 512 (codes "Failed to update description: " ++ h.lv.get_last_error w))),
    w,
  )
  edited h vm_name snap_name true w =
      let (detail, w') = detail_after h.backend vm_name snap_name other w in
      (send_html_trigger 200 (updated_page detail) changed, w')

  -- A body without a description clears it.
  unfoldable pub handle_edit_snapshot :
      Host W → Bytes → Bytes → Option Bytes → Site W → Response × Site W
  handle_edit_snapshot h vm_name snap_name body s =
      let desc = or_empty (form_value body (codes "description")) in
      let (done, w) = h.lv.edit_snapshot_description vm_name snap_name desc s.hypervisor in
      let (response, w') = edited h vm_name snap_name done w in (response, at s w')

  abbrev deleted : Host W → Bool → W → Response
  deleted h false w =
      send_html_trigger 500
        (error (snprintf_s 512 (codes "Failed to delete snapshot: " ++ h.lv.get_last_error w)))
        changed
  deleted h true w = send_html_trigger 200 (success (codes "Snapshot deleted")) changed

  abbrev pub delete_allowed :
      Host W → VmBackend W → Bytes → Bytes → Bool → Site W → Response × Site W
  delete_allowed h be vm_name snap_name true s = (
    send_html_trigger 400
        (error (
          codes
            "Cannot delete snapshots while VM is running or paused. Please shut down the VM first to fully remove snapshot data."))
        changed,
    s,
  )
  delete_allowed h be vm_name snap_name false s =
      let (done, w) = be.delete_snapshot vm_name snap_name true s.hypervisor in
      (deleted h done w, at s w)

  abbrev delete_of : Host W → Option (VmBackend W) → Bytes → Bytes → Site W → Response × Site W
  delete_of h none vm_name snap_name s = (send_html 500 no_backend, s)
  delete_of h (some be) vm_name snap_name s =
      let (vms, w) = be.list_vms s.hypervisor in
      delete_allowed h be vm_name snap_name (blocks_delete (state_of vm_name vms)) (at s w)

  unfoldable pub handle_delete_snapshot : Host W → Bytes → Bytes → Site W → Response × Site W
  handle_delete_snapshot h vm_name snap_name s = delete_of h h.backend vm_name snap_name s

  abbrev asked : Host W → Bytes → Bytes → Option VmState → Site W → Response × Site W
  asked h vm_name snap_name none s = (
    send_html 200
        (confirm_page (html_escape (some vm_name)) (html_escape (some snap_name)) false false),
    s,
  )
  asked h vm_name snap_name (some st) s =
      let (is_dirty, s') = vm_is_dirty h vm_name st s in
      (
        send_html 200 (
            confirm_page (html_escape (some vm_name)) (html_escape (some snap_name)) (is_running st)
              is_dirty),
        s',
      )

  abbrev confirm_of : Host W → Option (VmBackend W) → Bytes → Bytes → Site W → Response × Site W
  confirm_of h none vm_name snap_name s = (send_html 500 no_backend, s)
  confirm_of h (some be) vm_name snap_name s =
      let (vms, w) = be.list_vms s.hypervisor in
      asked h vm_name snap_name (state_of vm_name vms) (at s w)

  unfoldable pub handle_revert_confirm : Host W → Bytes → Bytes → Site W → Response × Site W
  handle_revert_confirm h vm_name snap_name s = confirm_of h h.backend vm_name snap_name s

  abbrev pub revert_done :
      Host W → VmBackend W → Bytes → Bytes → Bool → Bool → Site W → Response × Site W
  revert_done h be vm_name snap_name saved false s = (
    send_html_trigger 500
        (error (snprintf_s 512 (codes "Failed to revert: " ++ error_or_unknown h s.hypervisor)))
        changed,
    s,
  )
  revert_done h be vm_name snap_name saved true s =
      let s' = mark_clean h vm_name s in
      let (detail, w) = detail_after (some be) vm_name snap_name shutoff s'.hypervisor in
      (send_html_trigger 200 (reverted (revert_message saved snap_name) detail) changed, at s' w)

  abbrev pub revert_now : Host W → VmBackend W → Bytes → Bytes → Bool → Site W → Response × Site W
  revert_now h be vm_name snap_name saved s =
      let (done, w) = be.revert_snapshot vm_name snap_name s.hypervisor in
      revert_done h be vm_name snap_name saved done (at s w)

  -- The current state goes into a snapshot first, if that is asked for.
  abbrev pub saved_first : Host W → VmBackend W → Bytes → Bytes → Bool → Site W → Response × Site W
  saved_first h be vm_name snap_name false s = (
    send_html_trigger 500 (error (codes "Failed to save current state before revert")) changed,
    s,
  )
  saved_first h be vm_name snap_name true s = revert_now h be vm_name snap_name true s

  abbrev pub revert_saving :
      Host W → VmBackend W → Bytes → Bytes → Bytes → Bool → Site W → Response × Site W
  revert_saving h be auto_name vm_name snap_name false s = revert_now h be vm_name snap_name false s
  revert_saving h be auto_name vm_name snap_name true s =
      let (done, w) =
        be.create_snapshot vm_name auto_name (codes "Auto-saved before revert") internal
          s.hypervisor in
      saved_first h be vm_name snap_name done (at s w)

  abbrev pub revert_allowed :
      Host W → VmBackend W → Bytes → Bytes → Bytes → Bool → Bool → Site W → Response × Site W
  revert_allowed h be auto_name vm_name snap_name save true s = (
    send_html_trigger 400
        (error (codes "Cannot revert while VM is running. Please shut down or pause the VM first."))
        changed,
    s,
  )
  revert_allowed h be auto_name vm_name snap_name save false s =
      revert_saving h be auto_name vm_name snap_name save s

  abbrev pub revert_of :
      Host W
      → Option (VmBackend W)
      → Bytes
      → Bytes
      → Bytes
      → Option Bytes
      → Site W
      → Response × Site W
  revert_of h none auto_name vm_name snap_name save s = (send_html 500 no_backend, s)
  revert_of h (some be) auto_name vm_name snap_name save s =
      let (vms, w) = be.list_vms s.hypervisor in
      revert_allowed h be auto_name vm_name snap_name (wants_save save)
        (blocks_revert (state_of vm_name vms)) (at s w)

  -- `auto_name` is the name that `strftime` makes of the local time, and `save` is the argument
  -- `save_current` of the request.
  unfoldable pub handle_revert_snapshot :
      Host W → Bytes → Bytes → Bytes → Option Bytes → Site W → Response × Site W
  handle_revert_snapshot h auto_name vm_name snap_name save s =
      revert_of h h.backend auto_name vm_name snap_name save s

  abbrev merge_of : Option (VmBackend W) → Bytes → Bytes → W → Bool × W
  merge_of none vm_name snap_name w = (false, w)
  merge_of (some be) vm_name snap_name w = be.merge_snapshot vm_name snap_name w

  abbrev merged : Host W → Bool → W → Response
  merged h false w =
      send_html_trigger 500
        (error (
          snprintf_s 512 (
            codes "Failed to merge: "
            ++ (error_or_unknown h w ++ codes ". Make sure the VM is shut off."))))
        changed
  merged h true w = send_html_trigger 200 (success (codes "Snapshot merged")) changed

  unfoldable pub handle_merge_snapshot : Host W → Bytes → Bytes → Site W → Response × Site W
  handle_merge_snapshot h vm_name snap_name s =
      let (done, w) = merge_of h.backend vm_name snap_name s.hypervisor in (merged h done w, at s w)
