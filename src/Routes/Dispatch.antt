-- ===== src/Routes/Dispatch.antt =====
-- `route_dispatch` of src/routes.c.
pub mod Paths
pub mod Upload
use qemu_snapshot_web_manage.Prelude.{
  ℕ, Bool, true, false, ◌&&◌, ◌||◌, Option, none, some, [], ◌∷◌, if◌then◌else◌, Bytes, codes,
  strcmp_eq,
}
use qemu_snapshot_web_manage.Prelude.Int.{pos}
use qemu_snapshot_web_manage.Util.Path.{path_segment}
use qemu_snapshot_web_manage.Routes.{Response, Host, Site, send_404, send_405}
use qemu_snapshot_web_manage.Routes.Body.{Context, request_context_new, request_context_append}
use qemu_snapshot_web_manage.Routes.Lifecycle.{
  handle_list_vms, handle_vm_start, handle_vm_stop, handle_vm_pause, handle_vm_resume,
  handle_vm_force_stop, handle_convert_nvram, handle_orphan_check, handle_orphan_cleanup,
}
use qemu_snapshot_web_manage.Routes.Snapshots.{
  handle_snapshot_tree, handle_snapshot_detail, handle_snapshot_form, handle_create_snapshot,
}
use qemu_snapshot_web_manage.Routes.Changes.{
  handle_edit_snapshot_form, handle_edit_snapshot, handle_delete_snapshot, handle_revert_confirm,
  handle_revert_snapshot, handle_merge_snapshot,
}
use qemu_snapshot_web_manage.Routes.Folders.{
  handle_shared_folders, handle_shared_folder_form, handle_add_shared_folder,
  handle_remove_shared_folder, handle_mount_shared_folder, handle_unmount_shared_folder,
  handle_automount_setup,
}
use qemu_snapshot_web_manage.Routes.Browse.{Directories, handle_browse_dir}

-- The handler that a request goes to, with the names from its path.
pub data Route : Type 0 where
  not_found not_allowed browse list_vms : Route
  snapshot_tree create_snapshot snapshot_form : Bytes → Route
  snapshot_detail edit_snapshot delete_snapshot : Bytes → Bytes → Route
  edit_snapshot_form revert_snapshot revert_confirm merge_snapshot : Bytes → Bytes → Route
  shared_folders add_shared_folder shared_folder_form automount_setup : Bytes → Route
  mount_shared_folder unmount_shared_folder remove_shared_folder : Bytes → Bytes → Route
  vm_start vm_stop vm_pause vm_resume vm_force_stop : Bytes → Route
  convert_nvram orphan_check orphan_cleanup : Bytes → Route

-- `seg && str_eq(seg, text)`
abbrev pub seg_is : Option Bytes → Bytes → Bool
seg_is none text = false
seg_is (some seg) text = strcmp_eq seg text

abbrev pub is_get : Bytes → Bool
is_get method = strcmp_eq method (codes "GET")

abbrev pub is_post : Bytes → Bool
is_post method = strcmp_eq method (codes "POST")

abbrev pub is_delete : Bytes → Bool
is_delete method = strcmp_eq method (codes "DELETE")

abbrev pub is_put : Bytes → Bool
is_put method = strcmp_eq method (codes "PUT")

-- /api/vms/{name}/snapshots/{snap}, with what may stand behind it
unfoldable pub one_snapshot : Bytes → Bytes → Bytes → Option Bytes → Route
one_snapshot method vm_name snap_name none =
    if is_get method
    then snapshot_detail vm_name snap_name
    else if is_put method
    then edit_snapshot vm_name snap_name
    else if is_delete method
    then delete_snapshot vm_name snap_name
    else not_allowed
one_snapshot method vm_name snap_name (some seg5) =
    if strcmp_eq seg5 (codes "edit") && is_get method
    then edit_snapshot_form vm_name snap_name
    else if strcmp_eq seg5 (codes "revert") && is_post method
    then revert_snapshot vm_name snap_name
    else if strcmp_eq seg5 (codes "revert-confirm") && is_get method
    then revert_confirm vm_name snap_name
    else if strcmp_eq seg5 (codes "merge") && is_post method
    then merge_snapshot vm_name snap_name
    else not_found

-- /api/vms/{name}/snapshots
unfoldable pub snapshots_route : Bytes → Bytes → Option Bytes → Option Bytes → Route
snapshots_route method vm_name none seg5 =
    if is_get method
    then snapshot_tree vm_name
    else if is_post method
    then create_snapshot vm_name
    else not_allowed
snapshots_route method vm_name (some seg4) seg5 =
    if strcmp_eq seg4 (codes "form")
    then (if is_get method then snapshot_form vm_name else not_allowed)
    else one_snapshot method vm_name seg4 seg5

-- /api/vms/{name}/shared-folders
unfoldable pub folders_route : Bytes → Bytes → Option Bytes → Option Bytes → Route
folders_route method vm_name none seg5 =
    if is_get method
    then shared_folders vm_name
    else if is_post method
    then add_shared_folder vm_name
    else not_allowed
folders_route method vm_name (some seg4) seg5 =
    if strcmp_eq seg4 (codes "form") && is_get method
    then shared_folder_form vm_name
    else if seg_is seg5 (codes "mount") && is_post method
    then mount_shared_folder vm_name seg4
    else if seg_is seg5 (codes "unmount") && is_post method
    then unmount_shared_folder vm_name seg4
    else if strcmp_eq seg4 (codes "automount") && is_post method
    then automount_setup vm_name
    else if is_delete method
    then remove_shared_folder vm_name seg4
    else not_allowed

-- /api/vms/{name}/{seg3}
unfoldable pub action_route : Bytes → Bytes → Bytes → Route
action_route method vm_name seg3 =
    if strcmp_eq seg3 (codes "start") && is_post method
    then vm_start vm_name
    else if strcmp_eq seg3 (codes "stop") && is_post method
    then vm_stop vm_name
    else if strcmp_eq seg3 (codes "pause") && is_post method
    then vm_pause vm_name
    else if strcmp_eq seg3 (codes "resume") && is_post method
    then vm_resume vm_name
    else if strcmp_eq seg3 (codes "force-stop") && is_post method
    then vm_force_stop vm_name
    else if strcmp_eq seg3 (codes "convert-nvram") && is_post method
    then convert_nvram vm_name
    else if strcmp_eq seg3 (codes "orphan-check") && is_get method
    then orphan_check vm_name
    else if strcmp_eq seg3 (codes "orphan-cleanup") && is_post method
    then orphan_cleanup vm_name
    else not_found

unfoldable pub vm_route : Bytes → Bytes → Option Bytes → Option Bytes → Option Bytes → Route
vm_route method vm_name none seg4 seg5 = not_found
vm_route method vm_name (some seg3) seg4 seg5 =
    if strcmp_eq seg3 (codes "snapshots")
    then snapshots_route method vm_name seg4 seg5
    else if strcmp_eq seg3 (codes "shared-folders")
    then folders_route method vm_name seg4 seg5
    else action_route method vm_name seg3

unfoldable pub vms_route : Bytes → Option Bytes → Option Bytes → Option Bytes → Option Bytes → Route
vms_route method none seg3 seg4 seg5 = if is_get method then list_vms else not_allowed
vms_route method (some seg2) seg3 seg4 seg5 = vm_route method seg2 seg3 seg4 seg5

unfoldable pub route_of : Bytes → Bytes → Route
route_of method url =
    let seg1 = path_segment (some url) (pos 1) in
    let seg2 = path_segment (some url) (pos 2) in
    let seg3 = path_segment (some url) (pos 3) in
    let seg4 = path_segment (some url) (pos 4) in
    let seg5 = path_segment (some url) (pos 5) in
    if seg_is seg1 (codes "browse") && is_get method
    then browse
    else if seg_is seg1 (codes "vms")
    then vms_route method seg2 seg3 seg4 seg5
    else not_found

-- A request without its body: `path` and `save_current` are its arguments behind `?`, and `auto_name`
-- and `sudo_user` what the clock and the environment give to its handler.
pub record Request : Type 0 where
  pub url : Bytes
  pub method : Bytes
  pub path : Option Bytes
  pub save_current : Option Bytes
  pub auto_name : Bytes
  pub sudo_user : Option Bytes

abbrev body_of : Option Context → Option Bytes
body_of none = none
body_of (some ctx) = ctx.body

-- `MHD_YES` without a response, or a response that is queued.
pub data Reply : Type 0 where
  more : Reply
  queued : Response → Reply

pub record Dispatched (W : Type 0) : Type 0 where
  pub context : Option Context
  pub reply : Reply
  pub site : Site W

module _ {W : Type 0} where
  unfoldable pub run_route :
      Host W → Directories → Request → Option Bytes → Route → Site W → Response × Site W
  run_route h d q body not_found s = (send_404, s)
  run_route h d q body not_allowed s = (send_405, s)
  run_route h d q body browse s = (handle_browse_dir d q.sudo_user q.path, s)
  run_route h d q body list_vms s = handle_list_vms h s
  run_route h d q body (snapshot_tree vm) s = handle_snapshot_tree h vm s
  run_route h d q body (create_snapshot vm) s = handle_create_snapshot h vm body s
  run_route h d q body (snapshot_form vm) s = handle_snapshot_form h vm s
  run_route h d q body (snapshot_detail vm snap) s = handle_snapshot_detail h vm snap s
  run_route h d q body (edit_snapshot vm snap) s = handle_edit_snapshot h vm snap body s
  run_route h d q body (delete_snapshot vm snap) s = handle_delete_snapshot h vm snap s
  run_route h d q body (edit_snapshot_form vm snap) s = handle_edit_snapshot_form h vm snap s
  run_route h d q body (revert_snapshot vm snap) s =
      handle_revert_snapshot h q.auto_name vm snap q.save_current s
  run_route h d q body (revert_confirm vm snap) s = handle_revert_confirm h vm snap s
  run_route h d q body (merge_snapshot vm snap) s = handle_merge_snapshot h vm snap s
  run_route h d q body (shared_folders vm) s = handle_shared_folders h vm s
  run_route h d q body (add_shared_folder vm) s = handle_add_shared_folder h vm body s
  run_route h d q body (shared_folder_form vm) s = handle_shared_folder_form vm s
  run_route h d q body (automount_setup vm) s = handle_automount_setup h vm s
  run_route h d q body (mount_shared_folder vm tag) s = handle_mount_shared_folder h vm tag s
  run_route h d q body (unmount_shared_folder vm tag) s = handle_unmount_shared_folder h vm tag s
  run_route h d q body (remove_shared_folder vm tag) s = handle_remove_shared_folder h vm tag s
  run_route h d q body (vm_start vm) s = handle_vm_start h vm s
  run_route h d q body (vm_stop vm) s = handle_vm_stop h vm s
  run_route h d q body (vm_pause vm) s = handle_vm_pause h vm s
  run_route h d q body (vm_resume vm) s = handle_vm_resume h vm s
  run_route h d q body (vm_force_stop vm) s = handle_vm_force_stop h vm s
  run_route h d q body (convert_nvram vm) s = handle_convert_nvram h vm s
  run_route h d q body (orphan_check vm) s = handle_orphan_check h vm s
  run_route h d q body (orphan_cleanup vm) s = handle_orphan_cleanup h vm s

  abbrev pub answered : Host W → Directories → Request → Option Context → Site W → Dispatched W
  answered h d q context s =
      let (response, s') = run_route h d q (body_of context) (route_of q.method q.url) s in
      record { context = context; reply = queued response; site = s' }

  -- A call for a method with a body: the first makes the context, those with data fill it.
  abbrev pub receive :
      Host W → Directories → Request → Option Context → Bytes → Site W → Dispatched W
  receive h d q none upload_data s = record {
    context = some request_context_new;
    reply = more;
    site = s;
  }
  receive h d q (some ctx) (c ∷ upload_data) s = record {
    context = some (request_context_append ctx (c ∷ upload_data));
    reply = more;
    site = s;
  }
  receive h d q (some ctx) [] s = answered h d q (some ctx) s

  unfoldable pub route_dispatch :
      Host W → Directories → Request → Option Context → Bytes → Site W → Dispatched W
  route_dispatch h d q context upload_data s =
      if is_post q.method || is_delete q.method || is_put q.method
      then receive h d q context upload_data s
      else answered h d q context s
