-- ===== src/Routes/Dispatch/Paths.antt =====
-- The paths of the routes: each is found again by `route_dispatch`.
use qemu_snapshot_web_manage.Prelude.{
  ◌≡◌, ◌≢◌, refl, ◌∙◌, Bool, true, false, ◌&&◌, List, [], ◌∷◌, arith, Bytes, codes, All, get_elem?,
  strcmp_eq, strcmp_eq_iff, Bool-cases, inl, inr, if◌then◌else◌,
}
use qemu_snapshot_web_manage.Util.Path.Segments.{IsSegment, join, path_segment-join}
use qemu_snapshot_web_manage.Routes.Dispatch.{
  Route, not_found, not_allowed, browse, list_vms, snapshot_tree, create_snapshot, snapshot_form,
  snapshot_detail, edit_snapshot, delete_snapshot, edit_snapshot_form, revert_snapshot,
  revert_confirm, merge_snapshot, shared_folders, add_shared_folder, shared_folder_form,
  automount_setup, mount_shared_folder, unmount_shared_folder, remove_shared_folder, vm_start,
  vm_stop, vm_pause, vm_resume, vm_force_stop, convert_nvram, orphan_check, orphan_cleanup, seg_is,
  is_get, one_snapshot, snapshots_route, folders_route, action_route, vm_route, vms_route, route_of,
}

abbrev pub method_of : Route → Bytes
method_of (create_snapshot vm) = codes "POST"
method_of (edit_snapshot vm snap) = codes "PUT"
method_of (delete_snapshot vm snap) = codes "DELETE"
method_of (revert_snapshot vm snap) = codes "POST"
method_of (merge_snapshot vm snap) = codes "POST"
method_of (add_shared_folder vm) = codes "POST"
method_of (automount_setup vm) = codes "POST"
method_of (mount_shared_folder vm tag) = codes "POST"
method_of (unmount_shared_folder vm tag) = codes "POST"
method_of (remove_shared_folder vm tag) = codes "DELETE"
method_of (vm_start vm) = codes "POST"
method_of (vm_stop vm) = codes "POST"
method_of (vm_pause vm) = codes "POST"
method_of (vm_resume vm) = codes "POST"
method_of (vm_force_stop vm) = codes "POST"
method_of (convert_nvram vm) = codes "POST"
method_of (orphan_cleanup vm) = codes "POST"
method_of _ = codes "GET"

abbrev vm_path : Bytes → List Bytes → List Bytes
vm_path vm rest = codes "vms" ∷ vm ∷ rest

abbrev snap_path : Bytes → Bytes → List Bytes → List Bytes
snap_path vm snap rest = vm_path vm (codes "snapshots" ∷ snap ∷ rest)

abbrev folder_path : Bytes → List Bytes → List Bytes
folder_path vm rest = vm_path vm (codes "shared-folders" ∷ rest)

-- The path of a route behind `/api`.
abbrev pub segments_of : Route → List Bytes
segments_of not_found = []
segments_of not_allowed = []
segments_of browse = codes "browse" ∷ []
segments_of list_vms = codes "vms" ∷ []
segments_of (snapshot_tree vm) = vm_path vm (codes "snapshots" ∷ [])
segments_of (create_snapshot vm) = vm_path vm (codes "snapshots" ∷ [])
segments_of (snapshot_form vm) = snap_path vm (codes "form") []
segments_of (snapshot_detail vm snap) = snap_path vm snap []
segments_of (edit_snapshot vm snap) = snap_path vm snap []
segments_of (delete_snapshot vm snap) = snap_path vm snap []
segments_of (edit_snapshot_form vm snap) = snap_path vm snap (codes "edit" ∷ [])
segments_of (revert_snapshot vm snap) = snap_path vm snap (codes "revert" ∷ [])
segments_of (revert_confirm vm snap) = snap_path vm snap (codes "revert-confirm" ∷ [])
segments_of (merge_snapshot vm snap) = snap_path vm snap (codes "merge" ∷ [])
segments_of (shared_folders vm) = folder_path vm []
segments_of (add_shared_folder vm) = folder_path vm []
segments_of (shared_folder_form vm) = folder_path vm (codes "form" ∷ [])
segments_of (automount_setup vm) = folder_path vm (codes "automount" ∷ [])
segments_of (mount_shared_folder vm tag) = folder_path vm (tag ∷ codes "mount" ∷ [])
segments_of (unmount_shared_folder vm tag) = folder_path vm (tag ∷ codes "unmount" ∷ [])
segments_of (remove_shared_folder vm tag) = folder_path vm (tag ∷ [])
segments_of (vm_start vm) = vm_path vm (codes "start" ∷ [])
segments_of (vm_stop vm) = vm_path vm (codes "stop" ∷ [])
segments_of (vm_pause vm) = vm_path vm (codes "pause" ∷ [])
segments_of (vm_resume vm) = vm_path vm (codes "resume" ∷ [])
segments_of (vm_force_stop vm) = vm_path vm (codes "force-stop" ∷ [])
segments_of (convert_nvram vm) = vm_path vm (codes "convert-nvram" ∷ [])
segments_of (orphan_check vm) = vm_path vm (codes "orphan-check" ∷ [])
segments_of (orphan_cleanup vm) = vm_path vm (codes "orphan-cleanup" ∷ [])

abbrev pub url_of : Route → Bytes
url_of r = join (codes "api" ∷ segments_of r)

-- A snapshot called `form` has no route of its own: the path is that of the form.
abbrev pub IsSnapshot : Bytes → Type 0
IsSnapshot snap = snap ≢ codes "form"

-- A route that has a path, with names that can stand in one.
abbrev pub HasPath : Route → Type 0
HasPath not_found = ⊥
HasPath not_allowed = ⊥
HasPath (snapshot_detail vm snap) = IsSnapshot snap
HasPath (edit_snapshot vm snap) = IsSnapshot snap
HasPath (delete_snapshot vm snap) = IsSnapshot snap
HasPath (edit_snapshot_form vm snap) = IsSnapshot snap
HasPath (revert_snapshot vm snap) = IsSnapshot snap
HasPath (revert_confirm vm snap) = IsSnapshot snap
HasPath (merge_snapshot vm snap) = IsSnapshot snap
HasPath _ = Unit

not_equal : (a b : Bytes) → a ≢ b → strcmp_eq a b ≡ false
not_equal a b ne = elim (Bool-cases (strcmp_eq a b)) [
  | inl same ↦ absurd (ne ((strcmp_eq_iff a b).0 same))
  | inr other ↦ other
]

-- The choice from the segments that the path has.
abbrev choose : Bytes → List Bytes → Route
choose method segs =
    if seg_is (get_elem? segs 1) (codes "browse") && is_get method
    then browse
    else if seg_is (get_elem? segs 1) (codes "vms")
    then vms_route method (get_elem? segs 2) (get_elem? segs 3) (get_elem? segs 4)
        (get_elem? segs 5)
    else not_found

route_of-join :
    (method : Bytes) (segs : List Bytes)
    → All IsSegment segs
    → route_of method (join segs) ≡ choose method segs
unfolding route_of
route_of-join method segs h =
    rw
      (
        path_segment-join segs 1 h,
        path_segment-join segs 2 h,
        path_segment-join segs 3 h,
        path_segment-join segs 4 h,
        path_segment-join segs 5 h,
      )
      refl

and_false : (b : Bool) → (b && false) ≡ false
and_false true = refl
and_false false = refl

choose-url : (r : Route) → HasPath r → choose (method_of r) (codes "api" ∷ segments_of r) ≡ r
unfolding vms_route vm_route snapshots_route one_snapshot folders_route action_route strcmp_eq
choose-url not_found h = absurd h
choose-url not_allowed h = absurd h
choose-url browse h = refl
choose-url list_vms h = refl
choose-url (snapshot_tree vm) h = refl
choose-url (create_snapshot vm) h = refl
choose-url (snapshot_form vm) h = refl
choose-url (shared_folders vm) h = refl
choose-url (add_shared_folder vm) h = refl
choose-url (shared_folder_form vm) h = refl
choose-url (automount_setup vm) h = refl
choose-url (vm_start vm) h = refl
choose-url (vm_stop vm) h = refl
choose-url (vm_pause vm) h = refl
choose-url (vm_resume vm) h = refl
choose-url (vm_force_stop vm) h = refl
choose-url (convert_nvram vm) h = refl
choose-url (orphan_check vm) h = refl
choose-url (orphan_cleanup vm) h = refl
choose-url (snapshot_detail vm snap) h = rw (not_equal snap (codes "form") h) refl
choose-url (edit_snapshot vm snap) h = rw (not_equal snap (codes "form") h) refl
choose-url (delete_snapshot vm snap) h = rw (not_equal snap (codes "form") h) refl
choose-url (edit_snapshot_form vm snap) h = rw (not_equal snap (codes "form") h) refl
choose-url (revert_snapshot vm snap) h = rw (not_equal snap (codes "form") h) refl
choose-url (revert_confirm vm snap) h = rw (not_equal snap (codes "form") h) refl
choose-url (merge_snapshot vm snap) h = rw (not_equal snap (codes "form") h) refl
choose-url (mount_shared_folder vm tag) h = rw (and_false (strcmp_eq tag (codes "form"))) refl
choose-url (unmount_shared_folder vm tag) h = rw (and_false (strcmp_eq tag (codes "form"))) refl
choose-url (remove_shared_folder vm tag) h =
    rw (and_false (strcmp_eq tag (codes "form")), and_false (strcmp_eq tag (codes "automount")))
      refl

-- Every handler is reached: a request with the method and the path of a route goes to it, with the names
-- that stand in the path. The names are not empty and without slash, and a snapshot is not called `form`.
pub route_of-url :
    (r : Route)
    → HasPath r
    → All IsSegment (codes "api" ∷ segments_of r)
    → route_of (method_of r) (url_of r) ≡ r
route_of-url r h names =
    route_of-join (method_of r) (codes "api" ∷ segments_of r) names ∙ choose-url r h

-- A snapshot called `form` is never deleted: whatever the machine, the answer is `not_allowed`.
pub route_of-form :
    (vm : Bytes)
    → IsSegment vm
    → route_of (codes "DELETE") (url_of (delete_snapshot vm (codes "form"))) ≡ not_allowed
unfolding vms_route vm_route snapshots_route strcmp_eq
route_of-form vm h =
    route_of-join (codes "DELETE") (codes "api" ∷ snap_path vm (codes "form") [])
      (ground (arith, h))
    ∙ refl
