-- ===== src/Libvirt/Guest/Lock.antt =====
-- The lock of src/libvirt_backend.c and the operations in the guest.
use qemu_snapshot_web_manage.Prelude.{
  Bool, true, false, not, ◌||◌, Option, none, some, List, [], ◌∷◌, Bytes,
}
use qemu_snapshot_web_manage.Prelude.Int.{ℤ, pos, negsuc}
use qemu_snapshot_web_manage.Json.{Json}
use qemu_snapshot_web_manage.Backend.{
  SharedFolder, GuestOs, linux_systemd, linux_openrc, linux_other, windows, freebsd, macos, unknown,
}
use qemu_snapshot_web_manage.Libvirt.Session.{Libvirt, Session, after, with_domain}
use qemu_snapshot_web_manage.Libvirt.Lock.{IsFree, after-IsFree, if-either, with_domain-IsFree}
use qemu_snapshot_web_manage.Libvirt.Guest.{Agent, Outcome}
use qemu_snapshot_web_manage.Libvirt.Guest.Mounts.{
  is_running, if_running, in_guest, not_running, with_message, reported, mount_on,
  lv_mount_shared_folder, unmount_on, lv_unmount_shared_folder, unknown_mounts, mounts_on,
  lv_check_mount_status,
}
use qemu_snapshot_web_manage.Libvirt.Guest.Os.{
  Probe, first_found, with_os, with_response, with_osinfo, detect_in, os_in, os_not_running,
  lv_detect_guest_os,
}
use qemu_snapshot_web_manage.Libvirt.Guest.Automount.{
  Step, run_steps, setup_automount_systemd, setup_automount_openrc, setup_automount_windows,
  setup_automount_freebsd, setup_automount_macos, or_no_init, setup_for, setup_on,
  setup_not_running, lv_setup_automount, first_active, automount_unknown, lv_check_automount_status,
  systemd_steps, openrc_steps, windows_steps, freebsd_steps, macos_steps,
}

module _ {W : Type 0} (lv : Libvirt W) (ga : Agent W) (name : Bytes) where
  -- An operation leaves the lock free that it finds free.
  abbrev Keeps : {A : Type 0} → (Session W → A × Session W) → Type 0
  Keeps act = (s : Session W) → IsFree s → IsFree (act s).1

  if_running-IsFree :
      {A : Type 0} (otherwise act : Session W → A × Session W)
      → Keeps otherwise
      → Keeps act
      → Keeps (if_running lv name otherwise act)
  if_running-IsFree {A} otherwise act off on s free =
      let r = lv.domain_info name s.libvirt in
      let t = after s r.1 in
      let kept = after-IsFree s r.1 free in
      if-either (λ (q : A × Session W). IsFree q.1) (is_running r.0) (act t) (otherwise t)
        (on t kept) (off t kept)

  on_running-IsFree :
      {A : Type 0} (failed : A) (otherwise act : Session W → A × Session W)
      → Keeps otherwise
      → Keeps act
      → Keeps (with_domain lv name failed (if_running lv name otherwise act))
  on_running-IsFree failed otherwise act off on s =
      with_domain-IsFree lv name failed (if_running lv name otherwise act) s
        (if_running-IsFree otherwise act off on)

  in_guest-IsFree : (command : Bytes) → Keeps (in_guest lv ga name command)
  in_guest-IsFree command s free = after-IsFree s _ free

  with_message-IsFree :
      (message : Option Bytes) (s : Session W) → IsFree s → IsFree (with_message message s)
  with_message-IsFree none s free = free
  with_message-IsFree (some msg) s free = record {
    unlocked = free.unlocked;
    running = free.running;
  }

  reported-IsFree : (o : Outcome) → Keeps (reported o)
  reported-IsFree o s free =
      if-either IsFree o.success s (with_message o.message s) free
        (with_message-IsFree o.message s free)

  not_running-IsFree : Keeps not_running
  not_running-IsFree s free = record { unlocked = free.unlocked; running = free.running }

  pub mount-IsFree : (tag fs_type : Bytes) → Keeps (lv_mount_shared_folder lv ga name tag fs_type)
  unfolding lv_mount_shared_folder
  mount-IsFree tag fs_type =
      on_running-IsFree false not_running (mount_on lv ga name tag fs_type) not_running-IsFree
        (λ s free. reported-IsFree _ (after s _) (after-IsFree s _ free))

  pub unmount-IsFree : (tag : Bytes) → Keeps (lv_unmount_shared_folder lv ga name tag)
  unfolding lv_unmount_shared_folder
  unmount-IsFree tag =
      on_running-IsFree false not_running (unmount_on lv ga name tag) not_running-IsFree
        (λ s free. reported-IsFree _ (after s _) (after-IsFree s _ free))

  pub check_mount-IsFree :
      (folders : List SharedFolder) → Keeps (lv_check_mount_status lv ga name folders)
  unfolding lv_check_mount_status
  check_mount-IsFree [] s free = free
  check_mount-IsFree (f ∷ folders) s free =
      on_running-IsFree (false, f ∷ folders) (unknown_mounts (f ∷ folders))
        (mounts_on lv ga name (f ∷ folders)) (λ t kept. kept) (λ t kept. after-IsFree t _ kept) s
        free

  first_found-IsFree : (probes : List Probe) → Keeps (first_found lv ga name probes)
  unfolding first_found
  first_found-IsFree [] s free = free
  first_found-IsFree ((command, os) ∷ probes) s free =
      let r = in_guest lv ga name command s in
      let kept = in_guest-IsFree command s free in
      if-either (λ (q : GuestOs × Session W). IsFree q.1) r.0.success (os, r.1)
        (first_found lv ga name probes r.1) kept (first_found-IsFree probes r.1 kept)

  with_os-IsFree : (os : GuestOs) → Keeps (with_os lv ga name os)
  unfolding with_os
  with_os-IsFree linux_systemd s free = first_found-IsFree _ s free
  with_os-IsFree linux_openrc s free = free
  with_os-IsFree linux_other s free = free
  with_os-IsFree windows s free = free
  with_os-IsFree freebsd s free = free
  with_os-IsFree macos s free = free
  with_os-IsFree unknown s free = free

  with_response-IsFree : (resp : Option Json) → Keeps (with_response lv ga name resp)
  with_response-IsFree none s free = first_found-IsFree _ s free
  with_response-IsFree (some resp) s free = with_os-IsFree (os_in resp) s free

  with_osinfo-IsFree : (osinfo_json : Option Bytes) → Keeps (with_osinfo lv ga name osinfo_json)
  with_osinfo-IsFree none s free = first_found-IsFree _ s free
  with_osinfo-IsFree (some osinfo_json) s free =
      with_response-IsFree (ga.json_loads osinfo_json) s free

  detect_in-IsFree : Keeps (detect_in lv ga name)
  unfolding detect_in
  detect_in-IsFree s free = with_osinfo-IsFree _ (after s _) (after-IsFree s _ free)

  pub detect-IsFree : Keeps (lv_detect_guest_os lv ga name)
  unfolding lv_detect_guest_os
  detect-IsFree =
      on_running-IsFree unknown (os_not_running lv ga name) (detect_in lv ga name) (λ s free. free)
        detect_in-IsFree

  run_steps-IsFree : (steps : List Step) → Keeps (run_steps lv ga name steps)
  unfolding run_steps
  run_steps-IsFree [] s free = free
  run_steps-IsFree (st ∷ steps) s free =
      let r = in_guest lv ga name st.command s in
      let kept = in_guest-IsFree st.command s free in
      if-either (λ (q : (Bool × Option Bytes) × Session W). IsFree q.1)
        (r.0.success || not st.required) (run_steps lv ga name steps r.1)
        ((false, st.explain r.0.message), r.1) (run_steps-IsFree steps r.1 kept) kept

  systemd-IsFree : Keeps (setup_automount_systemd lv ga name)
  unfolding setup_automount_systemd
  systemd-IsFree s free = run_steps-IsFree systemd_steps s free

  or_no_init-IsFree :
      (r : (Bool × Option Bytes) × Session W) → IsFree r.1 → IsFree (or_no_init lv ga name r).1
  or_no_init-IsFree ((true, message), s) free = free
  or_no_init-IsFree ((false, message), s) free = free

  setup_for-IsFree : (os : GuestOs) → Keeps (setup_for lv ga name os)
  unfolding setup_for setup_automount_openrc setup_automount_windows setup_automount_freebsd
      setup_automount_macos
  setup_for-IsFree linux_systemd s free = systemd-IsFree s free
  setup_for-IsFree linux_openrc s free = run_steps-IsFree openrc_steps s free
  setup_for-IsFree windows s free = run_steps-IsFree windows_steps s free
  setup_for-IsFree freebsd s free = run_steps-IsFree freebsd_steps s free
  setup_for-IsFree macos s free = run_steps-IsFree macos_steps s free
  setup_for-IsFree linux_other s free = or_no_init-IsFree _ (systemd-IsFree s free)
  setup_for-IsFree unknown s free = or_no_init-IsFree _ (systemd-IsFree s free)

  pub setup-IsFree : Keeps (lv_setup_automount lv ga name)
  unfolding lv_setup_automount
  setup-IsFree =
      on_running-IsFree _ (setup_not_running lv ga name) (setup_on lv ga name) (λ s free. free)
        (λ s free. setup_for-IsFree _ _ (detect_in-IsFree s free))

  first_active-IsFree : (commands : List Bytes) → Keeps (first_active lv ga name commands)
  unfolding first_active
  first_active-IsFree [] s free = free
  first_active-IsFree (command ∷ commands) s free =
      let r = in_guest lv ga name command s in
      let kept = in_guest-IsFree command s free in
      if-either (λ (q : ℤ × Session W). IsFree q.1) r.0.success (pos 1, r.1)
        (first_active lv ga name commands r.1) kept (first_active-IsFree commands r.1 kept)

  pub check_automount-IsFree : Keeps (lv_check_automount_status lv ga name)
  unfolding lv_check_automount_status
  check_automount-IsFree =
      on_running-IsFree (negsuc 0) (automount_unknown lv ga name) (first_active lv ga name _)
        (λ s free. free) (first_active-IsFree _)
