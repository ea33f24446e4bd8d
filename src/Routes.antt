-- ===== src/Routes.antt =====
-- src/routes.c: what the routes share. A handler takes the state of the program and gives the
-- response it queues with the state after it.
pub mod Form
pub mod Body
pub mod Lifecycle
pub mod Snapshots
pub mod Changes
pub mod Folders
pub mod Browse
pub mod Dispatch
use qemu_snapshot_web_manage.Prelude.{
  ℕ, Bool, Option, none, some, List, [], ◌∷◌, if◌then◌else◌, Bytes, codes, strcmp_eq,
}
use qemu_snapshot_web_manage.Prelude.Int.{ℤ}
use qemu_snapshot_web_manage.Json.{Json}
use qemu_snapshot_web_manage.Snapshot.{Node}
use qemu_snapshot_web_manage.VmState.{VmState}
use qemu_snapshot_web_manage.Backend.{VmInfo, SharedFolder, GuestOs, VmBackend, LvCalls, Call}
use qemu_snapshot_web_manage.DirtyState.{State, dirty_state_mark_clean, dirty_state_is_dirty}
use qemu_snapshot_web_manage.DirtyState.Disk.{World, Outcomes}

-- The body of a response: a text, or a function of src/html_render.c (or a template of this file)
-- with what it is called with.
pub data Page : Type 0 where
  text success error error_html : Bytes → Page
  vm_list : List VmInfo → Page
  snapshot_detail : Bytes → Node → VmState → Page
  create_snapshot_form : Bytes → ℤ → Page
  edit_form : Bytes → Bytes → Bytes → Page
  updated : Bytes → Node → VmState → Page
  revert_running revert_dirty revert_clean : Bytes → Bytes → Page
  reverted : Bytes → Option (Bytes × Node × VmState) → Page
  shared_folders : Bytes → List SharedFolder → ℤ → Page
  add_folder_form : Bytes → Page
  shared_memory_prompt : Bytes → Bytes → Bytes → Bytes → Bool → Page
  restart_needed : Bytes → Page
  guest_agent_help : Bytes → Bytes → GuestOs → Page
  orphan_warning : Bytes → List Bytes → Page
  directory_listing : Bytes → List Bytes → Page

pub data Kind : Type 0 where
  html json : Kind

-- `HX-Trigger` is absent where no event is sent with the response.
pub record Response : Type 0 where
  pub status : ℕ
  pub kind : Kind
  pub page : Page
  pub trigger : Option Bytes

abbrev pub send_html : ℕ → Page → Response
send_html status page = record { status = status; kind = html; page = page; trigger = none }

abbrev pub send_html_trigger : ℕ → Page → Bytes → Response
send_html_trigger status page trigger = record {
  status = status;
  kind = html;
  page = page;
  trigger = some trigger;
}

abbrev pub send_json : ℕ → Bytes → Response
send_json status body = record { status = status; kind = json; page = text body; trigger = none }

abbrev pub send_404 : Response
send_404 = send_html 404 (text (codes "<html><body><h1>404 Not Found</h1></body></html>"))

abbrev pub send_405 : Response
send_405 = send_html 405 (text (codes "<html><body><h1>405 Method Not Allowed</h1></body></html>"))

-- `"vmStateChanged"`
abbrev pub changed : Bytes
changed = codes "vmStateChanged"

-- What the program runs on: the backend that is set, if any, the functions of the libvirt backend,
-- and the parameters of `DirtyState`.
pub record Host (W : Type 0) : Type 0 where
  pub backend : Option (VmBackend W)
  pub lv : LvCalls W
  pub dumps : Json → Bytes
  pub is_utf8 : Bytes → Bool
  pub outcomes : Outcomes

-- The hypervisor, the table of src/dirty_state.c and its file.
pub record Site (W : Type 0) : Type 0 where
  pub hypervisor : W
  pub dirty : State
  pub disk : World

-- The state of the first machine with the name in a list.
unfoldable pub state_in : Bytes → List VmInfo → Option VmState
state_in vm_name [] = none
state_in vm_name (vm ∷ vms) =
    if strcmp_eq vm.name vm_name then some vm.state else state_in vm_name vms

abbrev pub state_of : Bytes → Option (List VmInfo) → Option VmState
state_of vm_name none = none
state_of vm_name (some vms) = state_in vm_name vms

abbrev pub or_state : Option VmState → VmState → VmState
or_state none default = default
or_state (some st) default = st

module _ {W : Type 0} where
  abbrev pub at : Site W → W → Site W
  at s w = record s { hypervisor = w }

  -- `dirty_state_mark_clean`, whose result the routes do not look at.
  abbrev pub mark_clean : Host W → Bytes → Site W → Site W
  mark_clean h vm_name s =
      let done = dirty_state_mark_clean h.dumps h.outcomes (some vm_name) s.dirty s.disk in
      record s { dirty = done.state; disk = done.world }

  -- `vm_is_dirty`
  abbrev pub vm_is_dirty : Host W → Bytes → VmState → Site W → Bool × Site W
  vm_is_dirty h vm_name st s =
      let done = dirty_state_is_dirty h.dumps h.outcomes vm_name st s.dirty s.disk in
      (done.success, record s { dirty = done.state; disk = done.world })

  -- `err[0] ? err : "unknown error"`
  abbrev pub error_or_unknown : Host W → W → Bytes
  error_or_unknown h w = elim (h.lv.get_last_error w) [ [] ↦ codes "unknown error" | c ∷ s ↦ c ∷ s ]
