-- ===== src/Libvirt/Session.antt =====
-- src/libvirt_backend.c: the connection, its lock, the list of machines and their life cycle. libvirt
-- enters as a record of its calls on a state `W`.
use qemu_snapshot_web_manage.Prelude.{
  ℕ, Bool, true, false, ◌||◌, Option, none, some, List, ◌==◌, map, if◌then◌else◌, Bytes,
}
use qemu_snapshot_web_manage.VmState.{VmState, running, paused, shutoff, other}
use qemu_snapshot_web_manage.Backend.{VmInfo, Call}

-- A machine as libvirt describes it: `state` is 0 where `virDomainGetState` fails, and `info` holds the
-- number of processors and the memory.
pub record DomainView : Type 0 where
  pub name : Bytes
  pub uuid : Bytes
  pub state : ℕ
  pub info : Option (ℕ × ℕ)

-- The flags of `virDomainSnapshotCreateXML` that the source passes.
pub data CreateFlags : Type 0 where
  no_flags disk_only_atomic redefine redefine_current : CreateFlags

-- The calls of libvirt, by the name of the machine: `true` for 0, and `none` for `NULL`. `system` gives
-- the exit status of a command that fails.
pub record Libvirt (W : Type 0) : Type 0 where
  pub connect : Bytes → Call W Bool
  pub close : W → W
  pub lookup : Bytes → Call W Bool
  pub all_domains : Bool → Call W (Option (List DomainView))
  pub create : Bytes → Call W Bool
  pub shutdown : Bytes → Call W Bool
  pub destroy : Bytes → Call W Bool
  pub suspend : Bytes → Call W Bool
  pub resume : Bytes → Call W Bool
  pub domain_info : Bytes → Call W (Option ℕ)
  pub inactive_xml : Bytes → Call W (Option Bytes)
  pub define_xml : Bool → Bytes → Call W Bool
  pub snapshot_current : Bytes → Call W (Option Bytes)
  pub snapshot_lookup : Bytes → Bytes → Call W Bool
  pub snapshot_xml_desc : Bytes → Bytes → Bool → Call W (Option Bytes)
  pub snapshot_create_xml : Bytes → Bytes → CreateFlags → Call W Bool
  pub snapshot_delete : Bytes → Bytes → Bool → Call W Bool
  pub snapshot_revert : Bytes → Bytes → Call W Bool
  pub block_commit : Bytes → Bytes → Call W Bool
  pub reset_last_error : W → W
  pub last_message : W → Option Bytes
  pub system : Bytes → Call W (Option ℕ)
  pub unlink : Bytes → W → W

-- The static variables of the file. `locked` says that `conn_mutex` is held, and `stuck` that it was
-- locked while it was held, where the thread waits for itself.
pub record Session (W : Type 0) : Type 0 where
  pub connected : Bool
  pub locked : Bool
  pub stuck : Bool
  pub last_error : Bytes
  pub libvirt : W

abbrev pub vir_domain_running : ℕ
vir_domain_running = 1

abbrev pub vir_domain_paused : ℕ
vir_domain_paused = 3

abbrev pub vir_domain_shutoff : ℕ
vir_domain_shutoff = 5

unfoldable pub map_domain_state : ℕ → VmState
map_domain_state state =
    if state == vir_domain_running
    then running
    else if state == vir_domain_paused
    then paused
    else if state == vir_domain_shutoff
    then shutoff
    else other

abbrev vcpus_of : Option (ℕ × ℕ) → ℕ
vcpus_of none = 0
vcpus_of (some info) = info.0

abbrev memory_of : Option (ℕ × ℕ) → ℕ
memory_of none = 0
memory_of (some info) = info.1

unfoldable pub vm_info_of : DomainView → VmInfo
vm_info_of d = record {
  name = d.name;
  uuid = d.uuid;
  state = map_domain_state d.state;
  vcpus = vcpus_of d.info;
  memory_kb = memory_of d.info;
}

abbrev vms_of : Option (List DomainView) → Option (List VmInfo)
vms_of none = none
vms_of (some domains) = some (map vm_info_of domains)

module _ {W : Type 0} where
  abbrev pub conn_lock : Session W → Session W
  conn_lock s = record s { locked = true; stuck = s.stuck || s.locked }

  abbrev pub conn_unlock : Session W → Session W
  conn_unlock s = record s { locked = false }

  abbrev pub after : Session W → W → Session W
  after s w = record s { libvirt = w }

  abbrev pub looked_up : Bool → Session W → Bool × Session W
  looked_up false s = (false, conn_unlock s)
  looked_up true s = (true, s)

  -- Where the machine is found, the lock is still held.
  unfoldable pub lv_lookup_domain_locked : Libvirt W → Bytes → Session W → Bool × Session W
  lv_lookup_domain_locked lv vm_name s =
      let held = conn_lock s in
      let (found, w) = lv.lookup vm_name s.libvirt in
      if s.connected then looked_up found (after held w) else (false, conn_unlock held)

  unfoldable pub lv_connect : Libvirt W → Bytes → Session W → Bool × Session W
  lv_connect lv uri s =
      let held = conn_lock s in
      let (opened, w) = lv.connect uri s.libvirt in
      (opened, conn_unlock (record (after held w) { connected = opened }))

  unfoldable pub lv_disconnect : Libvirt W → Session W → Session W
  lv_disconnect lv s =
      let held = conn_lock s in
      conn_unlock (
        if s.connected
        then record (after held (lv.close s.libvirt)) { connected = false }
        else held)

  unfoldable pub lv_list_vms : Libvirt W → Session W → Option (List VmInfo) × Session W
  lv_list_vms lv s =
      let held = conn_lock s in
      let (domains, w) = lv.all_domains s.connected s.libvirt in
      (vms_of domains, conn_unlock (after held w))

  -- `if (!dom) return -1; conn_unlock();`
  abbrev pub on_domain :
      {A : Type 0} → A → (Session W → A × Session W) → Bool → Session W → A × Session W
  on_domain failed act false s = (failed, s)
  on_domain failed act true s = act (conn_unlock s)

  abbrev pub with_domain :
      {A : Type 0} → Libvirt W → Bytes → A → (Session W → A × Session W) → Session W → A × Session W
  with_domain lv vm_name failed act s =
      let (found, s') = lv_lookup_domain_locked lv vm_name s in on_domain failed act found s'

  abbrev pub called : Call W Bool → Session W → Bool × Session W
  called call s = let (done, w) = call s.libvirt in (done, after s w)

  unfoldable pub lv_vm_start : Libvirt W → Bytes → Session W → Bool × Session W
  lv_vm_start lv vm_name = with_domain lv vm_name false (called (lv.create vm_name))

  unfoldable pub lv_vm_stop : Libvirt W → Bytes → Session W → Bool × Session W
  lv_vm_stop lv vm_name = with_domain lv vm_name false (called (lv.shutdown vm_name))

  unfoldable pub lv_vm_force_stop : Libvirt W → Bytes → Session W → Bool × Session W
  lv_vm_force_stop lv vm_name = with_domain lv vm_name false (called (lv.destroy vm_name))

  unfoldable pub lv_vm_pause : Libvirt W → Bytes → Session W → Bool × Session W
  lv_vm_pause lv vm_name = with_domain lv vm_name false (called (lv.suspend vm_name))

  unfoldable pub lv_vm_resume : Libvirt W → Bytes → Session W → Bool × Session W
  lv_vm_resume lv vm_name = with_domain lv vm_name false (called (lv.resume vm_name))
