-- ===== src/Libvirt/Guest/Automount/Told.antt =====
-- What the answer of `lv_setup_automount` in src/libvirt_backend.c says about the guest.
use qemu_snapshot_web_manage.Prelude.{
  ◌≡◌, ◌≢◌, ◌⊎◌, Bool, true, false, Option, none, some, List, All, Bytes,
}
use qemu_snapshot_web_manage.Backend.{
  GuestOs, linux_systemd, linux_openrc, linux_other, windows, freebsd, macos, unknown,
}
use qemu_snapshot_web_manage.Libvirt.Session.{Libvirt, Session}
use qemu_snapshot_web_manage.Libvirt.Guest.{Agent, guest_exec}
use qemu_snapshot_web_manage.Libvirt.Guest.Automount.{
  Step, systemd_steps, openrc_steps, windows_steps, freebsd_steps, macos_steps,
}

-- The installer of a system. Where the system is not known it is that of systemd.
abbrev pub steps_for : GuestOs → List Step
steps_for linux_systemd = systemd_steps
steps_for linux_openrc = openrc_steps
steps_for windows = windows_steps
steps_for freebsd = freebsd_steps
steps_for macos = macos_steps
steps_for linux_other = systemd_steps
steps_for unknown = systemd_steps

-- A step that does not hide that it has failed.
abbrev IsOpen : Step → Type 0
IsOpen st = (msg : Bytes) → st.explain (some msg) ≢ none

-- What an answer tells, where `Q` is what a success stands for.
pub record Tells (Q : Type 0) (answer : Bool × Option Bytes) : Type 0 where
  pub achieved : answer.0 ≡ true → Q
  pub silent : answer.0 ≡ true → answer.1 ≡ none
  pub explained : answer.0 ≡ false → answer.1 ≢ none

module _ {W : Type 0} (lv : Libvirt W) (ga : Agent W) (vm_name : Bytes) where
  -- The command of the step has run in the guest, with success if the step is required.
  abbrev pub Ran : Step → Type 0
  Ran st =
      (w : W) × (((guest_exec lv ga vm_name st.command w).0.success ≡ true) ⊎ (st.required ≡ false))

  -- The commands of an installer have run, and those that are required have succeeded.
  abbrev pub IsInstalled : Type 0
  IsInstalled = (os : GuestOs) × All Ran (steps_for os)

  abbrev ToldOf : (Bool × Option Bytes) × Session W → Type 0
  ToldOf r = Tells IsInstalled r.0
