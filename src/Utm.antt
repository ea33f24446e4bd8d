-- ===== src/Utm.antt =====
-- src/utm_backend.c: the backend for UTM, which runs `utmctl` and reads its output. The commands, the
-- files and the environment enter as parameters.
pub mod Lines
pub mod Folders
pub mod Table
pub mod Listing
use qemu_snapshot_web_manage.Prelude.{
  ℕ, ◌-◌, ◌==◌, Bool, true, false, ◌||◌, Option, none, some, List, [], ◌∷◌, ◌++◌, if◌then◌else◌,
  Bytes, codes, take, strcmp_eq,
}
use qemu_snapshot_web_manage.Prelude.Int.{ℤ, pos, negsuc}
use qemu_snapshot_web_manage.VmState.{VmState, running, paused, shutoff, other}
use qemu_snapshot_web_manage.Backend.{VmInfo, Call}
use Lines.{tokens, skip_blanks, word, behind_word, trim}

-- What the system does: `access(path, X_OK)`, and a command with what it writes and its exit status,
-- which is `none` where a signal ends it. The whole is `none` where `pipe` or `fork` fails.
pub record System (W : Type 0) : Type 0 where
  pub is_executable : Bytes → Bool
  pub exec : List Bytes → Call W (Option (Bytes × Option ℕ))
  pub home : Option Bytes

abbrev pub app_path : Bytes
app_path = codes "/Applications/UTM.app/Contents/MacOS/utmctl"

abbrev pub local_path : Bytes
local_path = codes "/usr/local/bin/utmctl"

unfoldable pub map_status : Bytes → VmState
map_status s =
    if strcmp_eq s (codes "started") || strcmp_eq s (codes "running")
    then running
    else if strcmp_eq s (codes "paused")
    then paused
    else if strcmp_eq s (codes "stopped")
    then shutoff
    else other

-- The machine of a line: UUID, status and name, of which none is empty.
abbrev vm_of : Bytes → Bytes → Bytes → Option VmInfo
vm_of (a ∷ uuid) (b ∷ status) (c ∷ name) = some (record {
  name = c ∷ name;
  uuid = a ∷ uuid;
  state = map_status (b ∷ status);
  vcpus = 0;
  memory_kb = 0;
})
vm_of _ _ _ = none

unfoldable pub parse_line : Bytes → Option VmInfo
parse_line line =
    let uuid_str = skip_blanks line in
    let status_str = skip_blanks (behind_word uuid_str) in
    let name_str = skip_blanks (behind_word status_str) in
    vm_of (word uuid_str) (word status_str) (trim name_str)

abbrev add_vm : Option VmInfo → List VmInfo → List VmInfo
add_vm none vms = vms
add_vm (some vm) vms = vm ∷ vms

unfoldable pub parse_lines : List Bytes → List VmInfo
parse_lines [] = []
parse_lines (line ∷ lines) = add_vm (parse_line line) (parse_lines lines)

-- The first line is the header.
unfoldable pub parse_vms : Bytes → List VmInfo
parse_vms output = behind_header (tokens output)
  where
    behind_header : List Bytes → List VmInfo
    behind_header [] = []
    behind_header (header ∷ lines) = parse_lines lines

-- What `run_cmd` gives: the first `output_size - 1` bytes of the output, and the exit code.
abbrev finished : ℕ → Option (Bytes × Option ℕ) → Bytes × ℤ
finished output_size none = ([], negsuc 0)
finished output_size (some (output, none)) = (take (output_size - 1) output, negsuc 0)
finished output_size (some (output, some code)) = (take (output_size - 1) output, pos code)

abbrev pub is_zero : ℤ → Bool
is_zero (pos n) = n == 0
is_zero (negsuc n) = false

abbrev listed : Bytes × ℤ → Option (List VmInfo)
listed (output, ret) = if is_zero ret then some (parse_vms output) else none

module _ {W : Type 0} where
  unfoldable pub utmctl_path : System W → Option Bytes
  utmctl_path sys =
      if sys.is_executable app_path
      then some app_path
      else if sys.is_executable local_path
      then some local_path
      else none

  unfoldable pub run_cmd : System W → List Bytes → ℕ → Call W (Bytes × ℤ)
  run_cmd sys args output_size w =
      let (outcome, w') = sys.exec args w in (finished output_size outcome, w')

  -- `connect` succeeds if there is an `utmctl`.
  unfoldable pub utm_connect : System W → Bool
  utm_connect sys = elim (utmctl_path sys) [ none ↦ false | some path ↦ true ]

  abbrev list_with : System W → Option Bytes → Call W (Option (List VmInfo))
  list_with sys none w = (none, w)
  list_with sys (some path) w =
      let (result, w') = run_cmd sys (path ∷ codes "list" ∷ []) 8192 w in (listed result, w')

  unfoldable pub utm_list_vms : System W → Call W (Option (List VmInfo))
  utm_list_vms sys = list_with sys (utmctl_path sys)

  -- A command of `utmctl` on a machine.
  abbrev command_with : System W → Option Bytes → Bytes → Bytes → Call W Bool
  command_with sys none command vm_name w = (false, w)
  command_with sys (some path) command vm_name w =
      let (result, w') = run_cmd sys (path ∷ command ∷ vm_name ∷ []) 1024 w in
      (is_zero result.1, w')

  unfoldable pub utm_vm_start : System W → Bytes → Call W Bool
  utm_vm_start sys = command_with sys (utmctl_path sys) (codes "start")

  unfoldable pub utm_vm_stop : System W → Bytes → Call W Bool
  utm_vm_stop sys = command_with sys (utmctl_path sys) (codes "stop")

  unfoldable pub utm_vm_pause : System W → Bytes → Call W Bool
  utm_vm_pause sys = command_with sys (utmctl_path sys) (codes "suspend")

  unfoldable pub utm_vm_force_stop : System W → Bytes → Call W Bool
  utm_vm_force_stop sys = utm_vm_stop sys

  unfoldable pub utm_vm_resume : System W → Bytes → Call W Bool
  utm_vm_resume sys = command_with sys (utmctl_path sys) (codes "start")
