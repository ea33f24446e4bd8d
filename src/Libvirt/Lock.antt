-- ===== src/Libvirt/Lock.antt =====
-- The lock of src/libvirt_backend.c: each operation gives back `conn_mutex`.
use qemu_snapshot_web_manage.Prelude.{
  ℕ, ◌≡◌, refl, Bool, true, false, ◌||◌, Option, none, some, List, [], ◌∷◌, Bytes, codes,
  if◌then◌else◌,
}
use qemu_snapshot_web_manage.Prelude.Int.{ℤ, pos, negsuc}
use qemu_snapshot_web_manage.Backend.{Call}
use qemu_snapshot_web_manage.Snapshot.{SnapType}
use qemu_snapshot_web_manage.Libvirt.Xml.{create_snapshot_xml}
use qemu_snapshot_web_manage.Libvirt.Session.{
  Libvirt, Session, after, looked_up, on_domain, conn_lock, conn_unlock, called, with_domain,
  lv_lookup_domain_locked, lv_connect, lv_disconnect, lv_list_vms, lv_vm_start, lv_vm_stop,
  lv_vm_force_stop, lv_vm_pause, lv_vm_resume,
}
use qemu_snapshot_web_manage.Libvirt.Changes.{
  lv_create_snapshot, lv_edit_snapshot_description, lv_delete_snapshot, lv_revert_snapshot,
  lv_merge_snapshot, finished, edit_found, edit_xml, redefined, on_snapshot, delete_on, create_on,
  edit_on, create_with, reset_without, current_of, if_there, create_flags, edit_flags, is_named,
}
use qemu_snapshot_web_manage.Libvirt.Nvram.{
  lv_check_nvram_format, lv_convert_nvram, check_on, convert_on, convert_off, convert_xml,
  convert_found, convert_path, ran, redefine_nvram, defined, format_of, is_off, qcow2_path_of,
  convert_command,
}

pub data Operation : Type 0 where
  connect : Bytes → Operation
  disconnect list_vms : Operation
  vm_start vm_stop vm_force_stop vm_pause vm_resume : Bytes → Operation
  create_snapshot : Bytes → Bytes → Option Bytes → SnapType → Operation
  edit_description : Bytes → Bytes → Bytes → Operation
  delete_snapshot revert_snapshot merge_snapshot : Bytes → Bytes → Operation
  check_nvram convert_nvram : Bytes → Operation

-- The lock is not held, and no thread waits for itself.
pub record IsFree {W : Type 0} (s : Session W) : Type 0 where
  pub unlocked : s.locked ≡ false
  pub running : s.stuck ≡ false

pub after-IsFree : {W : Type 0} (s : Session W) (w : W) → IsFree s → IsFree (after s w)
after-IsFree s w free = record { unlocked = free.unlocked; running = free.running }

pub if-either :
    {A : Type 0} (P : A → Type 0) (b : Bool) (x y : A) → P x → P y → P (if b then x else y)
if-either P true x y h k = h
if-either P false x y h k = k

module _ {W : Type 0} (lv : Libvirt W) where
  abbrev pub perform : Operation → Session W → Session W
  perform (connect uri) s = (lv_connect lv uri s).1
  perform disconnect s = lv_disconnect lv s
  perform list_vms s = (lv_list_vms lv s).1
  perform (vm_start name) s = (lv_vm_start lv name s).1
  perform (vm_stop name) s = (lv_vm_stop lv name s).1
  perform (vm_force_stop name) s = (lv_vm_force_stop lv name s).1
  perform (vm_pause name) s = (lv_vm_pause lv name s).1
  perform (vm_resume name) s = (lv_vm_resume lv name s).1
  perform (create_snapshot name snap description type) s =
      (lv_create_snapshot lv name snap description type s).1
  perform (edit_description name snap new) s = (lv_edit_snapshot_description lv name snap new s).1
  perform (delete_snapshot name snap) s = (lv_delete_snapshot lv name snap s).1
  perform (revert_snapshot name snap) s = (lv_revert_snapshot lv name snap s).1
  perform (merge_snapshot name snap) s = (lv_merge_snapshot lv name snap s).1
  perform (check_nvram name) s = (lv_check_nvram_format lv name s).1
  perform (convert_nvram name) s = (lv_convert_nvram lv name s).1

  unfoldable pub perform_all : List Operation → Session W → Session W
  perform_all [] s = s
  perform_all (op ∷ ops) s = perform_all ops (perform op s)

  pub once : (s : Session W) → IsFree s → (s.stuck || s.locked) ≡ false
  once s free = rw (free.running, free.unlocked) refl

  -- What a lookup leaves: the lock is held only where the machine is found.
  abbrev HoldsIfFound : Bool × Session W → Type 0
  HoldsIfFound (found, s) = (s.stuck ≡ false) × (found ≡ false → s.locked ≡ false)

  looked_up-HoldsIfFound :
      (found : Bool) (s : Session W) → s.stuck ≡ false → HoldsIfFound (looked_up found s)
  looked_up-HoldsIfFound false s free = (free, λ e. refl)
  looked_up-HoldsIfFound true s free = (free, λ e. cc)

  lookup-HoldsIfFound :
      (name : Bytes) (s : Session W) → IsFree s → HoldsIfFound (lv_lookup_domain_locked lv name s)
  unfolding lv_lookup_domain_locked
  lookup-HoldsIfFound name s free =
      if-either HoldsIfFound s.connected _ _ (looked_up-HoldsIfFound _ _ (once s free))
        (once s free, λ e. refl)

  on_domain-IsFree :
      {A : Type 0} (failed : A) (act : Session W → A × Session W) (found : Bool) (s : Session W)
      → ((s' : Session W) → IsFree s' → IsFree (act s').1)
      → HoldsIfFound (found, s)
      → IsFree (on_domain failed act found s).1
  on_domain-IsFree failed act false s keeps held = record {
    unlocked = held.1 refl;
    running = held.0;
  }
  on_domain-IsFree failed act true s keeps held =
      keeps (conn_unlock s) (record { unlocked = refl; running = held.0 })

  -- What is done with a machine that is found, between the lookup and the return.
  pub with_domain-IsFree :
      {A : Type 0} (name : Bytes) (failed : A) (act : Session W → A × Session W) (s : Session W)
      → ((s' : Session W) → IsFree s' → IsFree (act s').1)
      → IsFree s
      → IsFree (with_domain lv name failed act s).1
  with_domain-IsFree name failed act s keeps free =
      let r = lv_lookup_domain_locked lv name s in
      on_domain-IsFree failed act r.0 r.1 keeps (lookup-HoldsIfFound name s free)

  finished-IsFree :
      (default : Bytes) (done : Bool) (s : Session W)
      → IsFree s
      → IsFree (finished lv default done s).1
  finished-IsFree default false s free = record { unlocked = free.unlocked; running = free.running }
  finished-IsFree default true s free = free

  create_with-IsFree :
      (name snap : Bytes) (description : Option Bytes) (type : SnapType) (current : Option Bytes)
      (s : Session W)
      → IsFree s
      → IsFree (create_with lv name snap description type current s).1
  create_with-IsFree name snap description type current s free =
      let xml = create_snapshot_xml current snap description type in
      let r = called (lv.snapshot_create_xml name xml (create_flags type)) s in
      finished-IsFree (codes "Unknown error") r.0 r.1
        (record { unlocked = free.unlocked; running = free.running })

  reset-IsFree :
      (current : Option Bytes) (s : Session W) → IsFree s → IsFree (reset_without lv current s)
  reset-IsFree none s free = record { unlocked = free.unlocked; running = free.running }
  reset-IsFree (some current) s free = free

  create_on-IsFree :
      (name snap : Bytes) (description : Option Bytes) (type : SnapType) (s : Session W)
      → IsFree s
      → IsFree (create_on lv name snap description type s).1
  create_on-IsFree name snap description type s free =
      let r = current_of lv name s in
      create_with-IsFree name snap description type r.0 (reset_without lv r.0 r.1)
        (reset-IsFree r.0 r.1 (record { unlocked = free.unlocked; running = free.running }))

  redefined-IsFree :
      (name : Bytes) (is_current : Bool) (new_xml : Option Bytes) (s : Session W)
      → IsFree s
      → IsFree (redefined lv name is_current new_xml s).1
  redefined-IsFree name is_current none s free = record {
    unlocked = free.unlocked;
    running = free.running;
  }
  redefined-IsFree name is_current (some new_xml) s free =
      let r = called (lv.snapshot_create_xml name new_xml (edit_flags is_current)) s in
      finished-IsFree (codes "REDEFINE failed") r.0 r.1
        (record { unlocked = free.unlocked; running = free.running })

  edit_xml-IsFree :
      (name new : Bytes) (is_current : Bool) (xml : Option Bytes) (s : Session W)
      → IsFree s
      → IsFree (edit_xml lv name new is_current xml s).1
  edit_xml-IsFree name new is_current none s free = record {
    unlocked = free.unlocked;
    running = free.running;
  }
  edit_xml-IsFree name new is_current (some xml) s free = redefined-IsFree name is_current _ s free

  edit_found-IsFree :
      (name snap new : Bytes) (found : Bool) (s : Session W)
      → IsFree s
      → IsFree (edit_found lv name snap new found s).1
  edit_found-IsFree name snap new false s free = record {
    unlocked = free.unlocked;
    running = free.running;
  }
  edit_found-IsFree name snap new true s free =
      let current = current_of lv name s in
      let xml = lv.snapshot_xml_desc name snap true current.1.libvirt in
      edit_xml-IsFree name new (is_named current.0 snap) xml.0 (after current.1 xml.1)
        (record { unlocked = free.unlocked; running = free.running })

  if_there-IsFree :
      (act : Session W → Bool × Session W) (found : Bool) (s : Session W)
      → ((s' : Session W) → IsFree s' → IsFree (act s').1)
      → IsFree s
      → IsFree (if_there act found s).1
  if_there-IsFree act false s keeps free = free
  if_there-IsFree act true s keeps free = keeps s free

  on_snapshot-IsFree :
      (name snap : Bytes) (act : Session W → Bool × Session W) (s : Session W)
      → ((s' : Session W) → IsFree s' → IsFree (act s').1)
      → IsFree s
      → IsFree (on_snapshot lv name snap act s).1
  on_snapshot-IsFree name snap act s keeps free =
      let r = called (lv.snapshot_lookup name snap) s in
      if_there-IsFree act r.0 r.1 keeps
        (record { unlocked = free.unlocked; running = free.running })

  defined-IsFree :
      (path : Bytes) (done : Bool) (s : Session W) → IsFree s → IsFree (defined lv path done s).1
  defined-IsFree path false s free = record { unlocked = free.unlocked; running = free.running }
  defined-IsFree path true s free = free

  redefine_nvram-IsFree :
      (path : Bytes) (new_xml : Option Bytes) (s : Session W)
      → IsFree s
      → IsFree (redefine_nvram lv path new_xml s).1
  redefine_nvram-IsFree path none s free = record {
    unlocked = free.unlocked;
    running = free.running;
  }
  redefine_nvram-IsFree path (some new_xml) s free =
      let r = called (lv.define_xml s.connected new_xml) (conn_lock s) in
      defined-IsFree path r.0 (conn_unlock r.1) (record { unlocked = refl; running = once s free })

  ran-IsFree :
      (xml path new : Bytes) (outcome : Option ℕ) (s : Session W)
      → IsFree s
      → IsFree (ran lv xml path new outcome s).1
  ran-IsFree xml path new none s free = redefine_nvram-IsFree new _ s free
  ran-IsFree xml path new (some status) s free = record {
    unlocked = free.unlocked;
    running = free.running;
  }

  convert_found-IsFree :
      (xml : Bytes) (path : Option Bytes) (s : Session W)
      → IsFree s
      → IsFree (convert_found lv xml path s).1
  convert_found-IsFree xml none s free = record { unlocked = free.unlocked; running = free.running }
  convert_found-IsFree xml (some []) s free = record {
    unlocked = free.unlocked;
    running = free.running;
  }
  convert_found-IsFree xml (some (c ∷ path)) s free =
      let new = qcow2_path_of (c ∷ path) in
      let r = lv.system (convert_command (c ∷ path) new) s.libvirt in
      if-either (λ (t : ℤ × Session W). IsFree t.1) (format_of xml) (pos 1, s)
        (convert_path lv xml (c ∷ path) s) free
        (ran-IsFree xml (c ∷ path) new r.0 (after s r.1)
          (record { unlocked = free.unlocked; running = free.running }))

  convert_xml-IsFree :
      (xml : Option Bytes) (s : Session W) → IsFree s → IsFree (convert_xml lv xml s).1
  convert_xml-IsFree none s free = record { unlocked = free.unlocked; running = free.running }
  convert_xml-IsFree (some xml) s free = convert_found-IsFree xml _ s free

  convert_off-IsFree :
      (name : Bytes) (off : Bool) (s : Session W) → IsFree s → IsFree (convert_off lv name off s).1
  convert_off-IsFree name false s free = record { unlocked = free.unlocked; running = free.running }
  convert_off-IsFree name true s free =
      let r = lv.inactive_xml name s.libvirt in
      convert_xml-IsFree r.0 (after s r.1)
        (record { unlocked = free.unlocked; running = free.running })

  disconnect-IsFree : (s : Session W) → IsFree s → IsFree (lv_disconnect lv s)
  unfolding lv_disconnect
  disconnect-IsFree s free =
      if-either (λ (t : Session W). IsFree (conn_unlock t)) s.connected
        (record (after (conn_lock s) (lv.close s.libvirt)) { connected = false }) (conn_lock s)
        (record { unlocked = refl; running = once s free })
        (record { unlocked = refl; running = once s free })

  called-IsFree : (call : Call W Bool) (s : Session W) → IsFree s → IsFree (called call s).1
  called-IsFree call s free = record { unlocked = free.unlocked; running = free.running }

  domain_call-IsFree :
      (name : Bytes) (call : Call W Bool) (s : Session W)
      → IsFree s
      → IsFree (with_domain lv name false (called call) s).1
  domain_call-IsFree name call s free =
      with_domain-IsFree name false (called call) s (called-IsFree call) free

  snapshot_act-IsFree :
      (name snap : Bytes) (act : Session W → Bool × Session W) (s : Session W)
      → ((s' : Session W) → IsFree s' → IsFree (act s').1)
      → IsFree s
      → IsFree (with_domain lv name false (on_snapshot lv name snap act) s).1
  snapshot_act-IsFree name snap act s keeps free =
      with_domain-IsFree name false (on_snapshot lv name snap act) s
        (λ s' f. on_snapshot-IsFree name snap act s' keeps f) free

  delete_on-IsFree :
      (name snap : Bytes) (s : Session W) → IsFree s → IsFree (delete_on lv name snap s).1
  delete_on-IsFree name snap s free = record { unlocked = free.unlocked; running = free.running }

  edit_on-IsFree :
      (name snap new : Bytes) (s : Session W) → IsFree s → IsFree (edit_on lv name snap new s).1
  edit_on-IsFree name snap new s free =
      let r = called (lv.snapshot_lookup name snap) s in
      edit_found-IsFree name snap new r.0 r.1
        (record { unlocked = free.unlocked; running = free.running })

  check_on-IsFree : (name : Bytes) (s : Session W) → IsFree s → IsFree (check_on lv name s).1
  check_on-IsFree name s free = record { unlocked = free.unlocked; running = free.running }

  convert_on-IsFree : (name : Bytes) (s : Session W) → IsFree s → IsFree (convert_on lv name s).1
  convert_on-IsFree name s free =
      let r = lv.domain_info name s.libvirt in
      convert_off-IsFree name (is_off r.0) (after s r.1)
        (record { unlocked = free.unlocked; running = free.running })

  pub perform-IsFree : (op : Operation) (s : Session W) → IsFree s → IsFree (perform op s)
  unfolding lv_connect lv_list_vms lv_vm_start lv_vm_stop lv_vm_force_stop lv_vm_pause lv_vm_resume
      lv_create_snapshot lv_edit_snapshot_description lv_delete_snapshot lv_revert_snapshot
      lv_merge_snapshot lv_check_nvram_format lv_convert_nvram
  perform-IsFree (connect uri) s free = record { unlocked = refl; running = once s free }
  perform-IsFree disconnect s free = disconnect-IsFree s free
  perform-IsFree list_vms s free = record { unlocked = refl; running = once s free }
  perform-IsFree (vm_start name) s free = domain_call-IsFree name (lv.create name) s free
  perform-IsFree (vm_stop name) s free = domain_call-IsFree name (lv.shutdown name) s free
  perform-IsFree (vm_force_stop name) s free = domain_call-IsFree name (lv.destroy name) s free
  perform-IsFree (vm_pause name) s free = domain_call-IsFree name (lv.suspend name) s free
  perform-IsFree (vm_resume name) s free = domain_call-IsFree name (lv.resume name) s free
  perform-IsFree (create_snapshot name snap description type) s free =
      with_domain-IsFree name false (create_on lv name snap description type) s
        (create_on-IsFree name snap description type) free
  perform-IsFree (edit_description name snap new) s free =
      with_domain-IsFree name false (edit_on lv name snap new) s (edit_on-IsFree name snap new) free
  perform-IsFree (delete_snapshot name snap) s free =
      snapshot_act-IsFree name snap (delete_on lv name snap) s (delete_on-IsFree name snap) free
  perform-IsFree (revert_snapshot name snap) s free =
      let revert = lv.snapshot_revert name snap in
      snapshot_act-IsFree name snap (called revert) s (called-IsFree revert) free
  perform-IsFree (merge_snapshot name snap) s free =
      let commit = lv.block_commit name (codes "vda") in
      snapshot_act-IsFree name snap (called commit) s (called-IsFree commit) free
  perform-IsFree (check_nvram name) s free =
      with_domain-IsFree name (negsuc 0) (check_on lv name) s (check_on-IsFree name) free
  perform-IsFree (convert_nvram name) s free =
      with_domain-IsFree name (negsuc 0) (convert_on lv name) s (convert_on-IsFree name) free

  -- Whatever libvirt answers, any sequence of operations gives the lock of the connection back after each
  -- of them, on every path through it, and none locks it while it holds it.
  pub perform_all-IsFree :
      (ops : List Operation) (s : Session W) → IsFree s → IsFree (perform_all ops s)
  unfolding perform_all
  perform_all-IsFree [] s free = free
  perform_all-IsFree (op ∷ ops) s free =
      perform_all-IsFree ops (perform op s) (perform-IsFree op s free)
