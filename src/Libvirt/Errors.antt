-- ===== src/Libvirt/Errors.antt =====
-- The operations of src/libvirt_backend.c that leave `lv_last_error` alone.
use qemu_snapshot_web_manage.Prelude.{◌≡◌, refl, ◌∙◌, Bool, true, false, Bytes, codes}
use qemu_snapshot_web_manage.Libvirt.Session.{
  Libvirt, Session, conn_lock, conn_unlock, after, called, looked_up, on_domain, with_domain,
  lv_lookup_domain_locked, lv_vm_start, lv_vm_stop, lv_vm_force_stop, lv_vm_pause, lv_vm_resume,
}
use qemu_snapshot_web_manage.Libvirt.Changes.{
  lv_delete_snapshot, lv_revert_snapshot, lv_merge_snapshot, if_there, on_snapshot, delete_on,
}
use qemu_snapshot_web_manage.Libvirt.Lock.{
  Operation, vm_start, vm_stop, vm_force_stop, vm_pause, vm_resume, delete_snapshot,
  revert_snapshot, merge_snapshot, perform, if-either,
}

-- The life cycle of a machine, and the deletion of a snapshot, the return to it and its merge.
abbrev pub IsSilent : Operation → Type 0
IsSilent (vm_start name) = Unit
IsSilent (vm_stop name) = Unit
IsSilent (vm_force_stop name) = Unit
IsSilent (vm_pause name) = Unit
IsSilent (vm_resume name) = Unit
IsSilent (delete_snapshot name snap) = Unit
IsSilent (revert_snapshot name snap) = Unit
IsSilent (merge_snapshot name snap) = Unit
IsSilent _ = ⊥

module _ {W : Type 0} (lv : Libvirt W) where
  abbrev Keeps : Bytes → Session W → Type 0
  Keeps error s = s.last_error ≡ error

  looked_up-Keeps : (found : Bool) (s : Session W) → Keeps s.last_error (looked_up found s).1
  looked_up-Keeps false s = refl
  looked_up-Keeps true s = refl

  lookup-Keeps :
      (name : Bytes) (s : Session W) → Keeps s.last_error (lv_lookup_domain_locked lv name s).1
  unfolding lv_lookup_domain_locked
  lookup-Keeps name s =
      let r = lv.lookup name s.libvirt in
      if-either (λ (t : Bool × Session W). Keeps s.last_error t.1) s.connected
        (looked_up r.0 (after (conn_lock s) r.1)) (false, conn_unlock (conn_lock s))
        (looked_up-Keeps r.0 (after (conn_lock s) r.1)) refl

  on_domain-Keeps :
      (error : Bytes) (act : Session W → Bool × Session W) (found : Bool) (s : Session W)
      → ((s' : Session W) → Keeps s'.last_error (act s').1)
      → Keeps error s
      → Keeps error (on_domain false act found s).1
  on_domain-Keeps error act false s keeps h = h
  on_domain-Keeps error act true s keeps h = keeps (conn_unlock s) ∙ h

  with_domain-Keeps :
      (name : Bytes) (act : Session W → Bool × Session W) (s : Session W)
      → ((s' : Session W) → Keeps s'.last_error (act s').1)
      → Keeps s.last_error (with_domain lv name false act s).1
  with_domain-Keeps name act s keeps =
      let r = lv_lookup_domain_locked lv name s in
      on_domain-Keeps s.last_error act r.0 r.1 keeps (lookup-Keeps name s)

  if_there-Keeps :
      (error : Bytes) (act : Session W → Bool × Session W) (found : Bool) (s : Session W)
      → ((s' : Session W) → Keeps s'.last_error (act s').1)
      → Keeps error s
      → Keeps error (if_there act found s).1
  if_there-Keeps error act false s keeps h = h
  if_there-Keeps error act true s keeps h = keeps s ∙ h

  snapshot_act-Keeps :
      (name snap : Bytes) (act : Session W → Bool × Session W) (s : Session W)
      → ((s' : Session W) → Keeps s'.last_error (act s').1)
      → Keeps s.last_error (with_domain lv name false (on_snapshot lv name snap act) s).1
  snapshot_act-Keeps name snap act s keeps =
      with_domain-Keeps name (on_snapshot lv name snap act) s (λ s'.
        let r = called (lv.snapshot_lookup name snap) s' in
        if_there-Keeps s'.last_error act r.0 r.1 keeps refl)

  -- Starting, stopping, pausing and resuming a machine, and deleting, merging or going back to a
  -- snapshot, never write the text that `lv_get_last_error` gives: whether they fail or not, it is that of
  -- an earlier operation.
  pub perform-last_error :
      (op : Operation) (s : Session W) → IsSilent op → (perform lv op s).last_error ≡ s.last_error
  unfolding lv_vm_start lv_vm_stop lv_vm_force_stop lv_vm_pause lv_vm_resume lv_delete_snapshot
      lv_revert_snapshot lv_merge_snapshot
  perform-last_error (vm_start name) s h =
      with_domain-Keeps name (called (lv.create name)) s (λ s'. refl)
  perform-last_error (vm_stop name) s h =
      with_domain-Keeps name (called (lv.shutdown name)) s (λ s'. refl)
  perform-last_error (vm_force_stop name) s h =
      with_domain-Keeps name (called (lv.destroy name)) s (λ s'. refl)
  perform-last_error (vm_pause name) s h =
      with_domain-Keeps name (called (lv.suspend name)) s (λ s'. refl)
  perform-last_error (vm_resume name) s h =
      with_domain-Keeps name (called (lv.resume name)) s (λ s'. refl)
  perform-last_error (delete_snapshot name snap) s h =
      snapshot_act-Keeps name snap (delete_on lv name snap) s (λ s'. refl)
  perform-last_error (revert_snapshot name snap) s h =
      snapshot_act-Keeps name snap (called (lv.snapshot_revert name snap)) s (λ s'. refl)
  perform-last_error (merge_snapshot name snap) s h =
      snapshot_act-Keeps name snap (called (lv.block_commit name (codes "vda"))) s (λ s'. refl)
  perform-last_error _ s h = absurd h
