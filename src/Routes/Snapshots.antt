-- ===== src/Routes/Snapshots.antt =====
-- src/routes.c: the handlers of snapshots.
use qemu_snapshot_web_manage.Prelude.{
  Bool, true, false, ◌||◌, Option, none, some, [], ◌∷◌, ◌++◌, ◌==◌, if◌then◌else◌, Bytes, codes,
  snprintf_s, strcmp_eq, strstr,
}
use qemu_snapshot_web_manage.VmState.{VmState, other, vm_state_str}
use qemu_snapshot_web_manage.Snapshot.{
  Node, SnapType, internal, external, info, snapshot_tree_find, snapshot_tree_add_current_state,
}
use qemu_snapshot_web_manage.Snapshot.Export.{snapshot_tree_to_json, or_empty}
use qemu_snapshot_web_manage.Libvirt.Xml.{is_found}
use qemu_snapshot_web_manage.Backend.{VmBackend}
use qemu_snapshot_web_manage.Routes.{
  Response, Host, Site, Page, success, error, snapshot_detail, create_snapshot_form, send_html,
  send_html_trigger, send_json, changed, at, state_of, or_state, mark_clean, vm_is_dirty,
}
use qemu_snapshot_web_manage.Routes.Form.{form_value}

abbrev pub no_backend : Page
no_backend = error (codes "No backend available")

abbrev failed_tree : Bytes
failed_tree =
    codes
      "{\"id\":\"error\",\"name\":\"Error\",\"description\":\"Failed to load snapshots\",\"date\":\"\",\"type\":\"internal\",\"isCurrent\":false,\"children\":[]}"

abbrev empty_tree : Bytes
empty_tree =
    codes
      "{\"id\":\"empty\",\"name\":\"No Snapshots\",\"description\":\"Create your first snapshot\",\"date\":\"\",\"type\":\"internal\",\"isCurrent\":false,\"children\":[]}"

-- The node of a snapshot in the list that the backend gives.
abbrev pub node_in : Bytes → Option (Option Node) → Option (Option Node)
node_in snap_name none = none
node_in snap_name (some none) = none
node_in snap_name (some (some tree)) = elim (snapshot_tree_find (some tree) (some snap_name)) [
  | none ↦ some none
  | some (p, n) ↦ some (some n)
]

abbrev pub description_of : Node → Bytes
description_of n = or_empty (info n).description

-- Blanks become hyphens.
unfoldable pub hyphenate : Bytes → Bytes
hyphenate [] = []
hyphenate (c ∷ s) = (if c == b' ' then b'-' else c) ∷ hyphenate s

abbrev type_in : Option Bytes → SnapType
type_in none = internal
type_in (some type_str) = if strcmp_eq type_str (codes "external") then external else internal

abbrev wrench : Bytes
wrench = 0xf0 ∷ 0x9f ∷ 0x94 ∷ 0xa7 ∷ []

-- The message for a snapshot that was not created, by the words of the error.
unfoldable pub create_failed : Bytes → Bytes → Bytes
create_failed vm_name err = snprintf_s 1300 (
    if is_found (strstr err (codes "pflash"))
      || is_found (strstr err (codes "QCOW2 nvram"))
      || is_found (strstr err (codes "qcow2"))
    then codes
        "Internal snapshot requires QCOW2 NVRAM format. Stop the VM and click Convert NVRAM, then start it again.<div style=\"margin-top:8px\"><button class=\"btn btn-sm btn-primary\" hx-post=\"/api/vms/"
      ++ (vm_name
          ++ (codes
                "/convert-nvram\" hx-target=\"#vm-notification\" hx-swap=\"innerHTML\" hx-confirm=\"Convert NVRAM from raw to qcow2? This is safe and required for internal snapshots on UEFI VMs. Your data will NOT be lost.\">"
              ++ (wrench ++ codes " Convert NVRAM</button></div>")))
    else if is_found (strstr err (codes "Invalid job ID"))
    then codes
        "Failed to create snapshot: QEMU rejected the snapshot name. Try a simpler name without special characters."
    else codes "Failed to create snapshot: " ++ err)

module _ {W : Type 0} where
  -- `render_json`: the tree with the node of the current state, if the machine is listed.
  abbrev tree_with_state : Host W → Bytes → Node → Option VmState → Site W → Option Node × Site W
  tree_with_state h vm_name tree none s = (some tree, s)
  tree_with_state h vm_name tree (some st) s =
      let (is_dirty, s') = vm_is_dirty h vm_name st s in
      (snapshot_tree_add_current_state (some tree) (vm_state_str st) is_dirty, s')

  abbrev shown_tree :
      Host W → VmBackend W → Bytes → Option (Option Node) → Site W → Response × Site W
  shown_tree h be vm_name none s = (send_json 200 failed_tree, s)
  shown_tree h be vm_name (some none) s = (send_json 200 empty_tree, s)
  shown_tree h be vm_name (some (some tree)) s =
      let (vms, w) = be.list_vms s.hypervisor in
      let (full, s') = tree_with_state h vm_name tree (state_of vm_name vms) (at s w) in
      (send_json 200 (or_empty (snapshot_tree_to_json h.dumps h.is_utf8 full)), s')

  abbrev snapshot_tree_of : Host W → Option (VmBackend W) → Bytes → Site W → Response × Site W
  snapshot_tree_of h none vm_name s = (send_json 200 failed_tree, s)
  snapshot_tree_of h (some be) vm_name s =
      let (tree, w) = be.list_snapshots vm_name s.hypervisor in
      shown_tree h be vm_name tree (at s w)

  unfoldable pub handle_snapshot_tree : Host W → Bytes → Site W → Response × Site W
  handle_snapshot_tree h vm_name s = snapshot_tree_of h h.backend vm_name s

  -- `none` is a list that cannot be loaded, `some none` a snapshot that is not there.
  abbrev shown_detail : VmBackend W → Bytes → Option (Option Node) → Site W → Response × Site W
  shown_detail be vm_name none s = (send_html 500 (error (codes "Failed to load snapshots")), s)
  shown_detail be vm_name (some none) s = (send_html 404 (error (codes "Snapshot not found")), s)
  shown_detail be vm_name (some (some snap)) s =
      let (vms, w) = be.list_vms s.hypervisor in
      (send_html 200 (snapshot_detail vm_name snap (or_state (state_of vm_name vms) other)), at s w)

  abbrev snapshot_detail_of : Option (VmBackend W) → Bytes → Bytes → Site W → Response × Site W
  snapshot_detail_of none vm_name snap_name s =
      (send_html 500 (error (codes "Failed to load snapshots")), s)
  snapshot_detail_of (some be) vm_name snap_name s =
      let (tree, w) = be.list_snapshots vm_name s.hypervisor in
      shown_detail be vm_name (node_in snap_name tree) (at s w)

  unfoldable pub handle_snapshot_detail : Host W → Bytes → Bytes → Site W → Response × Site W
  handle_snapshot_detail h vm_name snap_name s = snapshot_detail_of h.backend vm_name snap_name s

  unfoldable pub handle_snapshot_form : Host W → Bytes → Site W → Response × Site W
  handle_snapshot_form h vm_name s =
      let (nvram_ok, w) = h.lv.check_nvram_format vm_name s.hypervisor in
      (send_html 200 (create_snapshot_form vm_name nvram_ok), at s w)

  -- The machine is clean once the snapshot is there.
  abbrev pub created : Host W → Bytes → Bool → Site W → Response × Site W
  created h vm_name false s = (
    send_html_trigger 500 (error (create_failed vm_name (h.lv.get_last_error s.hypervisor)))
        changed,
    s,
  )
  created h vm_name true s =
      (send_html_trigger 200 (success (codes "Snapshot created")) changed, mark_clean h vm_name s)

  abbrev pub create_named :
      Host W
      → VmBackend W
      → Bytes
      → Option Bytes
      → Option Bytes
      → Option Bytes
      → Site W
      → Response × Site W
  create_named h be vm_name none description type_str s =
      (send_html_trigger 400 (error (codes "Snapshot name is required")) changed, s)
  create_named h be vm_name (some []) description type_str s =
      (send_html_trigger 400 (error (codes "Snapshot name is required")) changed, s)
  create_named h be vm_name (some (c ∷ name)) description type_str s =
      let (done, w) =
        be.create_snapshot vm_name (hyphenate (c ∷ name)) (or_empty description) (type_in type_str)
          s.hypervisor in
      created h vm_name done (at s w)

  abbrev pub create_of :
      Host W → Option (VmBackend W) → Bytes → Option Bytes → Site W → Response × Site W
  create_of h none vm_name body s = (send_html_trigger 500 no_backend changed, s)
  create_of h (some be) vm_name body s =
      create_named h be vm_name (form_value body (codes "name"))
        (form_value body (codes "description")) (form_value body (codes "type")) s

  unfoldable pub handle_create_snapshot : Host W → Bytes → Option Bytes → Site W → Response × Site W
  handle_create_snapshot h vm_name body s = create_of h h.backend vm_name body s
