-- ===== src/Libvirt/Guest.antt =====
-- src/libvirt_backend.c: a command in the guest, through its agent.
pub mod Polls
pub mod Mounts
pub mod Os
pub mod Automount
pub mod Lock
use qemu_snapshot_web_manage.Prelude.{
  ℕ, zero, suc, ◌+◌, ◌-◌, ◌^◌, ◌%◌, ◌==◌, ltb, Bool, true, false, Option, none, some, [], ◌∷◌, ◌++◌,
  if◌then◌else◌, Bytes, codes, length, snprintf_s,
}
use qemu_snapshot_web_manage.Prelude.Int.{ℤ, pos, negsuc}
use qemu_snapshot_web_manage.Json.{Json, string, boolean, integer, object, lookup}
use qemu_snapshot_web_manage.Backend.{Call}
use qemu_snapshot_web_manage.Server.{show_long}
use qemu_snapshot_web_manage.Util.Escape.{json_escape}
use qemu_snapshot_web_manage.Util.Base64.{base64_decode}
use qemu_snapshot_web_manage.Libvirt.Session.{Libvirt}

-- `virDomainQemuAgentCommand` with the name of the machine, the command and the seconds that it may
-- take, `sleep`, and `json_loads` of jansson.
pub record Agent (W : Type 0) : Type 0 where
  pub command : Bytes → Bytes → ℕ → Call W (Option Bytes)
  pub sleep : ℕ → W → W
  pub json_loads : Bytes → Option Json

-- What a command comes to: `message` is what `out_msg` points to.
pub record Outcome : Type 0 where
  pub success : Bool
  pub message : Option Bytes

abbrev pub failed : Bytes → Outcome
failed message = record { success = false; message = some message }

abbrev pub json_object_get : Option Json → Bytes → Option Json
json_object_get (some (object fields)) key = lookup key fields
json_object_get _ key = none

abbrev pub json_integer_value : Option Json → ℤ
json_integer_value (some (integer n)) = n
json_integer_value _ = pos 0

abbrev pub json_is_true : Option Json → Bool
json_is_true (some (boolean b)) = b
json_is_true _ = false

abbrev pub json_string_value : Option Json → Option Bytes
json_string_value (some (string s)) = some s
json_string_value _ = none

-- The integer with these 32 bits.
abbrev from_bits : ℕ → ℤ
from_bits r = if ltb r (2 ^ 31) then pos r else negsuc (2 ^ 32 - 1 - r)

-- `(int)` of a 64-bit integer.
unfoldable pub to_int : ℤ → ℤ
to_int (pos n) = from_bits (n % 2 ^ 32)
to_int (negsuc n) = from_bits (2 ^ 32 - 1 - n % 2 ^ 32)

unfoldable pub is_positive : ℤ → Bool
is_positive (pos n) = ltb 0 n
is_positive (negsuc n) = false

abbrev pub is_exit : ℤ → ℕ → Bool
is_exit (pos n) m = n == m
is_exit (negsuc n) m = false

unfoldable pub exec_json : Bytes → Bytes
exec_json escaped_cmd = snprintf_s (length escaped_cmd + 256) (
    codes "{\"execute\":\"guest-exec\",\"arguments\":{\"path\":\"/usr/bin/bash\",\"arg\":[\"-c\",\""
    ++ (escaped_cmd
        ++ codes "\"],\"env\":[\"PATH=/usr/sbin:/usr/bin:/sbin:/bin\"],\"capture-output\":true}}"))

unfoldable pub status_json : ℤ → Bytes
status_json pid = snprintf_s 256 (
    codes "{\"execute\":\"guest-exec-status\",\"arguments\":{\"pid\":"
    ++ (show_long pid ++ codes "}}"))

abbrev no_agent : Bytes
no_agent = codes "Guest agent not available. Is qemu-guest-agent installed and running in the VM?"

abbrev or_no_agent : Option Bytes → Bytes
or_no_agent none = no_agent
or_no_agent (some message) = message

-- The first text that is there and not empty.
abbrev first_text : Option Bytes → Option Bytes → Option Bytes
first_text (some (c ∷ err_data)) out_data = some (c ∷ err_data)
first_text _ (some (c ∷ out_data)) = some (c ∷ out_data)
first_text _ _ = none

abbrev exited_with : ℤ → Option Bytes → Bytes
exited_with exitcode none =
    snprintf_s 256
      (codes "Command exited with code " ++ (show_long exitcode ++ codes " inside guest"))
exited_with exitcode (some decoded) =
    snprintf_s 1024
      (codes "Command exited with code " ++ (show_long exitcode ++ (codes ": " ++ decoded)))

unfoldable pub exit_message : ℤ → Option Bytes → Bytes
exit_message exitcode b64 =
    if is_exit exitcode 126
    then codes
        "Permission denied inside guest (SELinux may be blocking mount from the guest agent context)."
    else if is_exit exitcode 127
    then codes "Command not found inside guest. Required packages may not be installed."
    else exited_with exitcode (base64_decode b64)

abbrev output_of : Option Bytes → Option Bytes
output_of (some (c ∷ out_data)) = base64_decode (some (c ∷ out_data))
output_of _ = some []

abbrev pub exit_code : Option Json → ℤ
exit_code ret_obj = to_int (json_integer_value (json_object_get ret_obj (codes "exitcode")))

-- What the answer of a command that has exited comes to.
unfoldable pub exit_outcome : Option Json → Outcome
exit_outcome ret_obj =
    let exitcode = exit_code ret_obj in
    let err_data = json_string_value (json_object_get ret_obj (codes "err-data")) in
    let out_data = json_string_value (json_object_get ret_obj (codes "out-data")) in
    if is_exit exitcode 0
    then record { success = true; message = output_of out_data }
    else failed (exit_message exitcode (first_text err_data out_data))

unfoldable pub has_exited : Json → Bool
has_exited resp =
    json_is_true (json_object_get (json_object_get (some resp) (codes "return")) (codes "exited"))

abbrev pub pid_in : Json → ℤ
pid_in resp = to_int (
    json_integer_value
      (json_object_get (json_object_get (some resp) (codes "return")) (codes "pid")))

module _ {W : Type 0} where
  abbrev pub with_status : (W → Outcome × W) → Option Json → W → Outcome × W
  with_status again none w = (failed (codes "Failed to parse status response"), w)
  with_status again (some resp) w =
      if has_exited resp
      then (exit_outcome (json_object_get (some resp) (codes "return")), w)
      else again w

  abbrev pub with_reply : Agent W → (W → Outcome × W) → Option Bytes → W → Outcome × W
  with_reply ga again none w = (failed (codes "Failed to get command status from guest agent"), w)
  with_reply ga again (some result) w = with_status again (ga.json_loads result) w

  -- The loop over `attempt`, with the rounds that are left.
  unfoldable pub poll : Agent W → Bytes → ℤ → ℕ → W → Outcome × W
  poll ga vm_name pid zero w = (failed (codes "Command still running in guest"), w)
  poll ga vm_name pid (suc left) w =
      let (result, w') = ga.command vm_name (status_json pid) 30 (ga.sleep 1 w) in
      with_reply ga (poll ga vm_name pid left) result w'

  abbrev pub started : Agent W → Bytes → Option Json → W → Outcome × W
  started ga vm_name none w = (failed (codes "Failed to parse guest agent response"), w)
  started ga vm_name (some resp) w =
      if is_positive (pid_in resp)
      then poll ga vm_name (pid_in resp) 10 w
      else (failed (codes "Guest agent returned invalid PID"), w)

  abbrev pub sent : Libvirt W → Agent W → Bytes → Option Bytes → W → Outcome × W
  sent lv ga vm_name none w = (failed (or_no_agent (lv.last_message w)), w)
  sent lv ga vm_name (some result) w = started ga vm_name (ga.json_loads result) w

  unfoldable pub guest_exec : Libvirt W → Agent W → Bytes → Bytes → W → Outcome × W
  guest_exec lv ga vm_name command w =
      let (result, w') = ga.command vm_name (exec_json (json_escape (some command))) 30 w in
      sent lv ga vm_name result w'
