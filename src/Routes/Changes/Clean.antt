-- ===== src/Routes/Changes/Clean.antt =====
-- When the handlers of src/routes.c mark a machine clean.
use qemu_snapshot_web_manage.Prelude.{
  ◌≡◌, refl, Bool, true, false, ◌&&◌, ◌==◌, Option, none, some, [], ◌∷◌, Bytes, strcmp_eq,
  if◌then◌else◌,
}
use qemu_snapshot_web_manage.DirtyState.{dirty_state_mark_clean}
use qemu_snapshot_web_manage.DirtyState.Lookup.{flag_of, CanTrack, dirty_state_set-flag_of}
use qemu_snapshot_web_manage.Backend.{VmBackend}
use qemu_snapshot_web_manage.Routes.{Response, Host, Site, at, mark_clean}
use qemu_snapshot_web_manage.Routes.Snapshots.{
  handle_create_snapshot, created, create_named, create_of,
}
use qemu_snapshot_web_manage.Routes.Changes.{
  handle_revert_snapshot, revert_done, saved_first, revert_saving, revert_allowed, revert_of,
  wants_save,
}

module _ {W : Type 0} (h : Host W) (vm_name j : Bytes) where
  -- The flags after a request: only on success is one written, that of its machine, and it is `clean`.
  abbrev pub IsMarkedOnSuccess : Site W → Response × Site W → Type 0
  IsMarkedOnSuccess s (response, s') = flag_of j s'.dirty.table ≡ (
      if response.status == 200 && strcmp_eq vm_name j then some true else flag_of j s.dirty.table)

  mark_clean-flag_of :
      (s : Site W)
      → CanTrack vm_name s.dirty.table
      → flag_of j (mark_clean h vm_name s).dirty.table
        ≡ (if strcmp_eq vm_name j then some true else flag_of j s.dirty.table)
  unfolding dirty_state_mark_clean
  mark_clean-flag_of s t =
      dirty_state_set-flag_of h.dumps h.outcomes vm_name true s.dirty s.disk j t

  created-IsMarkedOnSuccess :
      (done : Bool) (s : Site W)
      → CanTrack vm_name s.dirty.table
      → IsMarkedOnSuccess s (created h vm_name done s)
  created-IsMarkedOnSuccess false s t = refl
  created-IsMarkedOnSuccess true s t = mark_clean-flag_of s t

  create_named-IsMarkedOnSuccess :
      (be : VmBackend W) (name description type_str : Option Bytes) (s : Site W)
      → CanTrack vm_name s.dirty.table
      → IsMarkedOnSuccess s (create_named h be vm_name name description type_str s)
  create_named-IsMarkedOnSuccess be none description type_str s t = refl
  create_named-IsMarkedOnSuccess be (some []) description type_str s t = refl
  create_named-IsMarkedOnSuccess be (some (c ∷ name)) description type_str s t =
      created-IsMarkedOnSuccess _ (at s _) t

  create_of-IsMarkedOnSuccess :
      (b : Option (VmBackend W)) (body : Option Bytes) (s : Site W)
      → CanTrack vm_name s.dirty.table
      → IsMarkedOnSuccess s (create_of h b vm_name body s)
  create_of-IsMarkedOnSuccess none body s t = refl
  create_of-IsMarkedOnSuccess (some be) body s t = create_named-IsMarkedOnSuccess be _ _ _ s t

  -- For a machine whose name has 1 to 255 bytes, and that has a row in the table or finds room for
  -- one among its 128: a request for a new snapshot marks it clean if it is answered with 200, and
  -- leaves its flag as it is otherwise. The flag of any other machine stays in both cases.
  pub handle_create_snapshot-IsMarkedOnSuccess :
      (body : Option Bytes) (s : Site W)
      → CanTrack vm_name s.dirty.table
      → flag_of j (handle_create_snapshot h vm_name body s).1.dirty.table ≡ (
          if (handle_create_snapshot h vm_name body s).0.status == 200 && strcmp_eq vm_name j
          then some true
          else flag_of j s.dirty.table)
  unfolding handle_create_snapshot
  handle_create_snapshot-IsMarkedOnSuccess body s t = create_of-IsMarkedOnSuccess h.backend body s t

  module _ (snap_name : Bytes) where
    revert_done-IsMarkedOnSuccess :
        (be : VmBackend W) (saved done : Bool) (s : Site W)
        → CanTrack vm_name s.dirty.table
        → IsMarkedOnSuccess s (revert_done h be vm_name snap_name saved done s)
    revert_done-IsMarkedOnSuccess be saved false s t = refl
    revert_done-IsMarkedOnSuccess be saved true s t = mark_clean-flag_of s t

    saved_first-IsMarkedOnSuccess :
        (be : VmBackend W) (done : Bool) (s : Site W)
        → CanTrack vm_name s.dirty.table
        → IsMarkedOnSuccess s (saved_first h be vm_name snap_name done s)
    saved_first-IsMarkedOnSuccess be false s t = refl
    saved_first-IsMarkedOnSuccess be true s t = revert_done-IsMarkedOnSuccess be true _ (at s _) t

    revert_saving-IsMarkedOnSuccess :
        (be : VmBackend W) (auto_name : Bytes) (save : Bool) (s : Site W)
        → CanTrack vm_name s.dirty.table
        → IsMarkedOnSuccess s (revert_saving h be auto_name vm_name snap_name save s)
    revert_saving-IsMarkedOnSuccess be auto_name false s t =
        revert_done-IsMarkedOnSuccess be false _ (at s _) t
    revert_saving-IsMarkedOnSuccess be auto_name true s t =
        saved_first-IsMarkedOnSuccess be _ (at s _) t

    revert_allowed-IsMarkedOnSuccess :
        (be : VmBackend W) (auto_name : Bytes) (save blocked : Bool) (s : Site W)
        → CanTrack vm_name s.dirty.table
        → IsMarkedOnSuccess s (revert_allowed h be auto_name vm_name snap_name save blocked s)
    revert_allowed-IsMarkedOnSuccess be auto_name save true s t = refl
    revert_allowed-IsMarkedOnSuccess be auto_name save false s t =
        revert_saving-IsMarkedOnSuccess be auto_name save s t

    revert_of-IsMarkedOnSuccess :
        (b : Option (VmBackend W)) (auto_name : Bytes) (save : Option Bytes) (s : Site W)
        → CanTrack vm_name s.dirty.table
        → IsMarkedOnSuccess s (revert_of h b auto_name vm_name snap_name save s)
    revert_of-IsMarkedOnSuccess none auto_name save s t = refl
    revert_of-IsMarkedOnSuccess (some be) auto_name save s t =
        revert_allowed-IsMarkedOnSuccess be auto_name (wants_save save) _ (at s _) t

    -- For a machine whose name has 1 to 255 bytes, and that has a row in the table or finds room
    -- for one among its 128: a request to revert it marks it clean if it is answered with 200, and
    -- leaves its flag as it is otherwise. The flag of any other machine stays in both cases.
    pub handle_revert_snapshot-IsMarkedOnSuccess :
        (auto_name : Bytes) (save : Option Bytes) (s : Site W)
        → CanTrack vm_name s.dirty.table
        → flag_of j (handle_revert_snapshot h auto_name vm_name snap_name save s).1.dirty.table ≡ (
            if (handle_revert_snapshot h auto_name vm_name snap_name save s).0.status == 200
              && strcmp_eq vm_name j
            then some true
            else flag_of j s.dirty.table)
    unfolding handle_revert_snapshot
    handle_revert_snapshot-IsMarkedOnSuccess auto_name save s t =
        revert_of-IsMarkedOnSuccess h.backend auto_name save s t
