-- ===== src/Libvirt/Guest/Automount.antt =====
-- src/libvirt_backend.c: the service in the guest that mounts shared folders by itself.
pub mod Told
use qemu_snapshot_web_manage.Prelude.{
  Bool, true, false, not, ◌||◌, Option, none, some, List, [], ◌∷◌, if◌then◌else◌, Bytes, codes,
  strstr,
}
use qemu_snapshot_web_manage.Prelude.Int.{ℤ, pos, negsuc}
use qemu_snapshot_web_manage.Backend.{
  GuestOs, linux_systemd, linux_openrc, linux_other, windows, freebsd, macos, unknown,
}
use qemu_snapshot_web_manage.Libvirt.Xml.{is_found}
use qemu_snapshot_web_manage.Libvirt.Session.{Libvirt, Session, with_domain}
use qemu_snapshot_web_manage.Libvirt.Guest.{Agent, Outcome, failed}
use qemu_snapshot_web_manage.Libvirt.Guest.Mounts.{if_running, in_guest}
use qemu_snapshot_web_manage.Libvirt.Guest.Os.{detect_in}

abbrev systemd_permissive : Bytes
systemd_permissive =
    codes
      "which semanage >/dev/null 2>&1 && semanage permissive -a virt_qemu_ga_t 2>/dev/null; true"

abbrev systemd_script : Bytes
systemd_script =
    codes
      "cat > /usr/local/bin/qemu-automount << 'SCRIPT'\n#!/bin/bash\nSKIP=/etc/qemu-no-automount\nfor tag_path in /sys/fs/virtiofs/*/tag; do\n    [ -e \"$tag_path\" ] || continue\n    TAG=$(cat \"$tag_path\")\n    if [ -f \"$SKIP\" ] && grep -qxF \"$TAG\" \"$SKIP\"; then continue; fi\n    MOUNT_POINT=\"/media/$TAG\"\n    mkdir -p \"$MOUNT_POINT\"\n    if ! mountpoint -q \"$MOUNT_POINT\"; then\n        mount -t virtiofs \"$TAG\" \"$MOUNT_POINT\" >/dev/null 2>&1\n    fi\ndone\nSCRIPT\nchmod +x /usr/local/bin/qemu-automount"

abbrev systemd_service : Bytes
systemd_service =
    codes
      "cat > /etc/systemd/system/qemu-automount.service << 'EOF'\n[Unit]\nDescription=QEMU/KVM VirtioFS Auto-Mounter\n\n[Service]\nType=oneshot\nExecStart=/usr/local/bin/qemu-automount\nEOF"

abbrev systemd_timer : Bytes
systemd_timer =
    codes
      "cat > /etc/systemd/system/qemu-automount.timer << 'EOF'\n[Unit]\nDescription=Run QEMU Auto-Mounter every 5 seconds\n\n[Timer]\nOnBootSec=5s\nOnUnitActiveSec=5s\nAccuracySec=100ms\n\n[Install]\nWantedBy=timers.target\nEOF"

abbrev systemd_enable : Bytes
systemd_enable = codes "systemctl daemon-reload && systemctl enable --now qemu-automount.timer"

abbrev openrc_script : Bytes
openrc_script =
    codes
      "cat > /usr/local/bin/qemu-automount << 'SCRIPT'\n#!/bin/sh\nfor tag_path in /sys/fs/virtiofs/*/tag; do\n    [ -e \"$tag_path\" ] || continue\n    TAG=$(cat \"$tag_path\")\n    MOUNT_POINT=\"/media/$TAG\"\n    mkdir -p \"$MOUNT_POINT\"\n    if ! mountpoint -q \"$MOUNT_POINT\"; then\n        mount -t virtiofs \"$TAG\" \"$MOUNT_POINT\" 2>/dev/null\n    fi\ndone\nSCRIPT\nchmod +x /usr/local/bin/qemu-automount"

abbrev openrc_init : Bytes
openrc_init =
    codes
      "cat > /etc/init.d/qemu-automount << 'EOF'\n#!/sbin/openrc-run\ndescription=\"QEMU/KVM VirtioFS Auto-Mounter\"\ncommand=/usr/local/bin/qemu-automount\ncommand_background=false\n\ndepend() {\n    need localmount\n}\nEOF\nchmod +x /etc/init.d/qemu-automount"

abbrev openrc_enable : Bytes
openrc_enable =
    codes
      "rc-update add qemu-automount default 2>/dev/null; rc-service qemu-automount start 2>/dev/null; (crontab -l 2>/dev/null | grep -v qemu-automount; echo '*/1 * * * * /usr/local/bin/qemu-automount') | crontab -"

abbrev windows_script : Bytes
windows_script =
    codes
      "cmd.exe /c \"mkdir C:\\ProgramData\\QEMU 2>NUL & echo # QEMU VirtioFS Auto-Mounter > C:\\ProgramData\\QEMU\\automount.ps1 & echo $vfs = Get-PnpDevice -FriendlyName '*VirtIO FS*' -ErrorAction SilentlyContinue >> C:\\ProgramData\\QEMU\\automount.ps1 & echo if (-not $vfs) { exit } >> C:\\ProgramData\\QEMU\\automount.ps1 & echo $shares = Get-CimInstance -ClassName Win32_NetworkConnection -ErrorAction SilentlyContinue >> C:\\ProgramData\\QEMU\\automount.ps1 & echo # Mount any unmounted VirtioFS shares >> C:\\ProgramData\\QEMU\\automount.ps1 & echo Get-PSDrive -PSProvider FileSystem -ErrorAction SilentlyContinue ^| Out-Null >> C:\\ProgramData\\QEMU\\automount.ps1\""

abbrev windows_task : Bytes
windows_task =
    codes
      "cmd.exe /c \"schtasks.exe /Create /TN QEMU-AutoMount /SC MINUTE /MO 5 /TR \\\"powershell.exe -ExecutionPolicy Bypass -File C:\\ProgramData\\QEMU\\automount.ps1\\\" /RU SYSTEM /F\""

abbrev freebsd_script : Bytes
freebsd_script =
    codes
      "cat > /usr/local/bin/qemu-automount << 'SCRIPT'\n#!/bin/sh\n# Mount all VirtioFS shares\nfor tag in $(sysctl -n vfs.virtiofs.tags 2>/dev/null); do\n    MOUNT_POINT=\"/media/$tag\"\n    mkdir -p \"$MOUNT_POINT\"\n    mount | grep -q \"$MOUNT_POINT\" || mount -t virtiofs \"$tag\" \"$MOUNT_POINT\" 2>/dev/null\ndone\nSCRIPT\nchmod +x /usr/local/bin/qemu-automount"

abbrev freebsd_rc : Bytes
freebsd_rc =
    codes
      "cat > /usr/local/etc/rc.d/qemu_automount << 'EOF'\n#!/bin/sh\n# PROVIDE: qemu_automount\n# REQUIRE: FILESYSTEMS\n. /etc/rc.subr\nname=qemu_automount\nrcvar=qemu_automount_enable\nstart_cmd=\"/usr/local/bin/qemu-automount\"\nload_rc_config $name\nrun_rc_command \"$1\"\nEOF\nchmod +x /usr/local/etc/rc.d/qemu_automount"

abbrev freebsd_enable : Bytes
freebsd_enable =
    codes
      "sysrc qemu_automount_enable=YES 2>/dev/null; service qemu_automount start 2>/dev/null; (crontab -l 2>/dev/null | grep -v qemu-automount; echo '*/1 * * * * /usr/local/bin/qemu-automount') | crontab -"

abbrev macos_script : Bytes
macos_script =
    codes
      "cat > /usr/local/bin/qemu-automount << 'SCRIPT'\n#!/bin/bash\n# Mount VirtioFS shares on macOS guest\n# Note: macOS VirtioFS support is limited; this is best-effort\nfor tag in $(mount -t virtiofs 2>/dev/null | awk '{print $1}'); do\n    MOUNT_POINT=\"/Volumes/$tag\"\n    mkdir -p \"$MOUNT_POINT\" 2>/dev/null\n    mount | grep -q \"$MOUNT_POINT\" || mount -t virtiofs \"$tag\" \"$MOUNT_POINT\" 2>/dev/null\ndone\nSCRIPT\nchmod +x /usr/local/bin/qemu-automount"

abbrev macos_plist : Bytes
macos_plist =
    codes
      "cat > /Library/LaunchDaemons/com.qemu.automount.plist << 'EOF'\n<?xml version=\"1.0\" encoding=\"UTF-8\"?>\n<!DOCTYPE plist PUBLIC \"-//Apple//DTD PLIST 1.0//EN\" \"http://www.apple.com/DTDs/PropertyList-1.0.dtd\">\n<plist version=\"1.0\">\n<dict>\n    <key>Label</key>\n    <string>com.qemu.automount</string>\n    <key>ProgramArguments</key>\n    <array>\n        <string>/usr/local/bin/qemu-automount</string>\n    </array>\n    <key>StartInterval</key>\n    <integer>5</integer>\n    <key>RunAtLoad</key>\n    <true/>\n</dict>\n</plist>\nEOF"

abbrev macos_load : Bytes
macos_load = codes "launchctl load /Library/LaunchDaemons/com.qemu.automount.plist 2>/dev/null"

abbrev automount_probes : List Bytes
automount_probes =
    codes "systemctl is-active qemu-automount.timer 2>/dev/null"
    ∷ codes "rc-service qemu-automount status 2>/dev/null | grep -q started"
    ∷ codes "schtasks.exe /Query /TN \"QEMU-AutoMount\" >NUL 2>&1"
    ∷ codes "service qemu_automount status 2>/dev/null | grep -q running"
    ∷ codes "launchctl list com.qemu.automount 2>/dev/null"
    ∷ []

abbrev selinux_message : Bytes
selinux_message =
    codes
      "SELinux blocked writing to /usr/local/bin/. Run this inside the guest VM: sudo semanage permissive -a virt_qemu_ga_t (requires: sudo dnf install policycoreutils-python-utils)"

abbrev drivers_message : Bytes
drivers_message =
    codes
      "Failed to create auto-mount script. Windows VirtioFS support requires the VirtIO-Win drivers and WinFsp to be installed."

abbrev no_init_message : Bytes
no_init_message =
    codes
      "Could not detect init system. Tried systemd but it's not available. Supported: Linux (systemd, OpenRC), Windows, FreeBSD, macOS."

abbrev pub is_denied : Option Bytes → Bool
is_denied none = false
is_denied (some msg) = is_found (strstr msg (codes "Permission denied"))

abbrev pub selinux_blocked : Option Bytes → Option Bytes
selinux_blocked msg = if is_denied msg then some selinux_message else msg

abbrev drivers_missing : Option Bytes → Option Bytes
drivers_missing msg = some drivers_message

abbrev as_is : Option Bytes → Option Bytes
as_is msg = msg

-- A step of an installer: its command, whether a failure of the command ends the installer, and what it
-- then says.
pub record Step : Type 0 where
  pub command : Bytes
  pub required : Bool
  pub explain : Option Bytes → Option Bytes

abbrev step : Bytes → Step
step command = record { command = command; required = true; explain = as_is }

abbrev best_effort : Bytes → Step
best_effort command = record { command = command; required = false; explain = as_is }

unfoldable pub systemd_steps : List Step
systemd_steps =
    best_effort systemd_permissive
    ∷ record { command = systemd_script; required = true; explain = selinux_blocked }
    ∷ step systemd_service
    ∷ step systemd_timer
    ∷ step systemd_enable
    ∷ []

unfoldable pub openrc_steps : List Step
openrc_steps = step openrc_script ∷ step openrc_init ∷ step openrc_enable ∷ []

unfoldable pub windows_steps : List Step
windows_steps =
    record { command = windows_script; required = true; explain = drivers_missing }
    ∷ step windows_task
    ∷ []

unfoldable pub freebsd_steps : List Step
freebsd_steps = step freebsd_script ∷ step freebsd_rc ∷ step freebsd_enable ∷ []

unfoldable pub macos_steps : List Step
macos_steps = step macos_script ∷ step macos_plist ∷ step macos_load ∷ []

abbrev pub done : Bool × Option Bytes
done = (true, none)

module _ {W : Type 0} (lv : Libvirt W) (ga : Agent W) (vm_name : Bytes) where
  -- `if (rc != 0) { ... return -1; }`, or nothing where the step is not required.
  abbrev pub next_step :
      Step
      → (Session W → (Bool × Option Bytes) × Session W)
      → Outcome
      → Session W
      → (Bool × Option Bytes) × Session W
  next_step st rest o s =
      if o.success || not st.required then rest s else ((false, st.explain o.message), s)

  unfoldable pub run_steps : List Step → Session W → (Bool × Option Bytes) × Session W
  run_steps [] s = (done, s)
  run_steps (st ∷ steps) s =
      let (o, s') = in_guest lv ga vm_name st.command s in next_step st (run_steps steps) o s'

  unfoldable pub setup_automount_systemd : Session W → (Bool × Option Bytes) × Session W
  setup_automount_systemd = run_steps systemd_steps

  unfoldable pub setup_automount_openrc : Session W → (Bool × Option Bytes) × Session W
  setup_automount_openrc = run_steps openrc_steps

  unfoldable pub setup_automount_windows : Session W → (Bool × Option Bytes) × Session W
  setup_automount_windows = run_steps windows_steps

  unfoldable pub setup_automount_freebsd : Session W → (Bool × Option Bytes) × Session W
  setup_automount_freebsd = run_steps freebsd_steps

  unfoldable pub setup_automount_macos : Session W → (Bool × Option Bytes) × Session W
  setup_automount_macos = run_steps macos_steps

  -- The message of a failure gives way where the system is not known.
  abbrev pub or_no_init : (Bool × Option Bytes) × Session W → (Bool × Option Bytes) × Session W
  or_no_init ((true, message), s) = ((true, message), s)
  or_no_init ((false, message), s) = ((false, some no_init_message), s)

  unfoldable pub setup_for : GuestOs → Session W → (Bool × Option Bytes) × Session W
  setup_for linux_systemd s = setup_automount_systemd s
  setup_for linux_openrc s = setup_automount_openrc s
  setup_for windows s = setup_automount_windows s
  setup_for freebsd s = setup_automount_freebsd s
  setup_for macos s = setup_automount_macos s
  setup_for linux_other s = or_no_init (setup_automount_systemd s)
  setup_for unknown s = or_no_init (setup_automount_systemd s)

  abbrev pub setup_on : Session W → (Bool × Option Bytes) × Session W
  setup_on s = let (os, s') = detect_in lv ga vm_name s in setup_for os s'

  abbrev pub setup_not_running : Session W → (Bool × Option Bytes) × Session W
  setup_not_running s = ((false, some (codes "VM is not running")), s)

  unfoldable pub lv_setup_automount : Session W → (Bool × Option Bytes) × Session W
  lv_setup_automount =
      with_domain lv vm_name (false, some (codes "VM not found or not connected to libvirt"))
        (if_running lv vm_name setup_not_running setup_on)

  abbrev pub when_inactive : (Session W → ℤ × Session W) → Outcome → Session W → ℤ × Session W
  when_inactive rest o s = if o.success then (pos 1, s) else rest s

  -- The first of the probes that succeeds says that the service is active.
  unfoldable pub first_active : List Bytes → Session W → ℤ × Session W
  first_active [] s = (pos 0, s)
  first_active (command ∷ commands) s =
      let (o, s') = in_guest lv ga vm_name command s in when_inactive (first_active commands) o s'

  abbrev pub automount_unknown : Session W → ℤ × Session W
  automount_unknown s = (negsuc 0, s)

  unfoldable pub lv_check_automount_status : Session W → ℤ × Session W
  lv_check_automount_status =
      with_domain lv vm_name (negsuc 0)
        (if_running lv vm_name automount_unknown (first_active automount_probes))
