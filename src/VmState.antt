-- ===== src/VmState.antt =====
-- `vm_state_t` and `vm_state_str` of src/vm_backend.h, and `state_css_class` of src/html_render.c.
use qemu_snapshot_web_manage.Prelude.{Bytes, codes}

pub data VmState : Type 0 where
  running paused shutoff other : VmState

unfoldable pub vm_state_str : VmState → Bytes
vm_state_str running = codes "running"
vm_state_str paused = codes "paused"
vm_state_str shutoff = codes "shut off"
vm_state_str other = codes "other"

unfoldable pub state_css_class : VmState → Bytes
state_css_class running = codes "state-running"
state_css_class paused = codes "state-paused"
state_css_class shutoff = codes "state-shutoff"
state_css_class other = codes "state-other"
