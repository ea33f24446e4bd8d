-- ===== src/Libvirt/Guest/Os.antt =====
-- src/libvirt_backend.c: the operating system of the guest.
use qemu_snapshot_web_manage.Prelude.{
  ℕ, ◌+◌, leb, Bool, false, ◌&&◌, ◌||◌, Option, none, some, List, [], ◌∷◌, if◌then◌else◌, Bytes,
  codes, map, strstr,
}
use qemu_snapshot_web_manage.Json.{Json}
use qemu_snapshot_web_manage.Backend.{
  GuestOs, linux_systemd, linux_openrc, linux_other, windows, freebsd, macos, unknown,
}
use qemu_snapshot_web_manage.Libvirt.Xml.{is_found}
use qemu_snapshot_web_manage.Libvirt.Session.{Libvirt, Session, after, with_domain}
use qemu_snapshot_web_manage.Libvirt.Guest.{Agent, Outcome, json_object_get, json_string_value}
use qemu_snapshot_web_manage.Libvirt.Guest.Mounts.{if_running, in_guest}

unfoldable pub guest_os_name : GuestOs → Bytes
guest_os_name linux_systemd = codes "Linux (systemd)"
guest_os_name linux_openrc = codes "Linux (OpenRC)"
guest_os_name linux_other = codes "Linux (other)"
guest_os_name windows = codes "Windows"
guest_os_name freebsd = codes "FreeBSD"
guest_os_name macos = codes "macOS"
guest_os_name unknown = codes "Unknown"

abbrev lower : ℕ → ℕ
lower c = if leb b'A' c && leb c b'Z' then c + 32 else c

-- `s && strstr(s, needle)`, and the same with `strcasestr`.
abbrev holds : Option Bytes → Bytes → Bool
holds none needle = false
holds (some s) needle = is_found (strstr s needle)

abbrev holds_case : Option Bytes → Bytes → Bool
holds_case none needle = false
holds_case (some s) needle = is_found (strstr (map lower s) (map lower needle))

-- Linux stands for what is neither of the others, and its init system is asked for.
unfoldable pub os_of : Option Bytes → Option Bytes → Option Bytes → GuestOs
os_of kernel os_id name =
    if holds_case name (codes "windows")
      || holds_case name (codes "Microsoft")
      || holds_case os_id (codes "mswindows")
    then windows
    else if holds_case name (codes "macOS") || holds kernel (codes "Darwin")
    then macos
    else if holds_case os_id (codes "freebsd")
        || holds_case name (codes "FreeBSD")
        || holds kernel (codes "FreeBSD")
    then freebsd
    else linux_systemd

unfoldable pub os_in : Json → GuestOs
os_in resp =
    let ret = json_object_get (some resp) (codes "return") in
    os_of (json_string_value (json_object_get ret (codes "kernel-release")))
      (json_string_value (json_object_get ret (codes "id")))
      (json_string_value (json_object_get ret (codes "name")))

abbrev pub Probe : Type 0
Probe = Bytes × GuestOs

abbrev init_probes : List Probe
init_probes =
    (codes "systemctl --version >/dev/null 2>&1", linux_systemd)
    ∷ (codes "rc-service --version >/dev/null 2>&1", linux_openrc)
    ∷ []

abbrev binary_probes : List Probe
binary_probes =
    (codes "cmd.exe /c echo ok", windows)
    ∷ (codes "freebsd-version >/dev/null 2>&1", freebsd)
    ∷ (codes "sw_vers >/dev/null 2>&1", macos)
    ∷ init_probes

module _ {W : Type 0} (lv : Libvirt W) (ga : Agent W) (vm_name : Bytes) where
  abbrev pub unless_found :
      GuestOs → (Session W → GuestOs × Session W) → Outcome → Session W → GuestOs × Session W
  unless_found os rest o s = if o.success then (os, s) else rest s

  -- The system of the first probe that succeeds.
  unfoldable pub first_found : List Probe → Session W → GuestOs × Session W
  first_found [] s = (linux_other, s)
  first_found ((command, os) ∷ probes) s =
      let (o, s') = in_guest lv ga vm_name command s in unless_found os (first_found probes) o s'

  unfoldable pub with_os : GuestOs → Session W → GuestOs × Session W
  with_os linux_systemd s = first_found init_probes s
  with_os os s = (os, s)

  abbrev pub with_response : Option Json → Session W → GuestOs × Session W
  with_response none s = first_found binary_probes s
  with_response (some resp) s = with_os (os_in resp) s

  abbrev pub with_osinfo : Option Bytes → Session W → GuestOs × Session W
  with_osinfo none s = first_found binary_probes s
  with_osinfo (some osinfo_json) s = with_response (ga.json_loads osinfo_json) s

  unfoldable pub detect_in : Session W → GuestOs × Session W
  detect_in s =
      let (osinfo_json, w) =
        ga.command vm_name (codes "{\"execute\":\"guest-get-osinfo\"}") 10 s.libvirt in
      with_osinfo osinfo_json (after s w)

  abbrev pub os_not_running : Session W → GuestOs × Session W
  os_not_running s = (unknown, s)

  unfoldable pub lv_detect_guest_os : Session W → GuestOs × Session W
  lv_detect_guest_os =
      with_domain lv vm_name unknown (if_running lv vm_name os_not_running detect_in)
