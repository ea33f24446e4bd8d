-- ===== src/Html/Machines.antt =====
-- Pages of src/html_render.c: the list of machines and the detail of a snapshot.
use qemu_snapshot_web_manage.Prelude.{
  ◌*◌, ◌/◌, Bool, true, false, Option, none, some, List, [], ◌∷◌, ◌++◌, Bytes, codes, length,
}
use qemu_snapshot_web_manage.Prelude.Int.{pos}
use qemu_snapshot_web_manage.VmState.{
  VmState, running, paused, shutoff, other, vm_state_str, state_css_class,
}
use qemu_snapshot_web_manage.Backend.{VmInfo}
use qemu_snapshot_web_manage.Snapshot.{SnapType, internal, external, Node, node}
use qemu_snapshot_web_manage.Html.Template.{Part, raw, escaped, number, text, built}

abbrev pub vm_head : VmInfo → List (List Part)
vm_head vm =
    (raw (text "<div class=\"vm-item\" data-vm=\"")
      ∷ escaped (some vm.name)
      ∷ raw (text "\" onclick=\"selectVm('")
      ∷ escaped (some vm.name)
      ∷ raw (text "')\">\n    <div class=\"vm-header\">\n        <div class=\"vm-name\">")
      ∷ escaped (some vm.name)
      ∷ raw (text "</div>\n        <span class=\"vm-state ")
      ∷ raw (state_css_class vm.state)
      ∷ raw (text "\">")
      ∷ raw (vm_state_str vm.state)
      ∷ raw (
          text "</span>\n    </div>\n    <div class=\"vm-meta\">\n        <span class=\"vm-info\">")
      ∷ number (pos vm.vcpus)
      ∷ raw (text " vCPU · ")
      ∷ number (pos (vm.memory_kb / 1024))
      ∷ raw (
          text
            " MB</span>\n    </div>\n    <div class=\"vm-actions\" onclick=\"event.stopPropagation()\">\n")
      ∷ [])
    ∷ []

-- The buttons for the state of the machine.
abbrev pub vm_buttons : VmState → Bytes → List (List Part)
vm_buttons running name =
    (raw (text "        <button class=\"btn btn-xs btn-warning\" hx-post=\"/api/vms/")
      ∷ escaped (some name)
      ∷ raw (
          text
            "/stop\" hx-target=\"#vm-notification\" hx-swap=\"innerHTML\" title=\"Shutdown (graceful)\">⏹ Stop</button>\n        <button class=\"btn btn-xs btn-secondary\" hx-post=\"/api/vms/")
      ∷ escaped (some name)
      ∷ raw (
          text
            "/pause\" hx-target=\"#vm-notification\" hx-swap=\"innerHTML\" title=\"Pause\">⏸ Pause</button>\n        <button class=\"btn btn-xs btn-danger\" hx-post=\"/api/vms/")
      ∷ escaped (some name)
      ∷ raw (
          text
            "/force-stop\" hx-target=\"#vm-notification\" hx-swap=\"innerHTML\" hx-confirm=\"Force stop ")
      ∷ escaped (some name)
      ∷ raw (text "? This may cause data loss.\" title=\"Force power off\">⚡ Force</button>\n")
      ∷ [])
    ∷ []
vm_buttons paused name =
    (raw (text "        <button class=\"btn btn-xs btn-success\" hx-post=\"/api/vms/")
      ∷ escaped (some name)
      ∷ raw (
          text
            "/resume\" hx-target=\"#vm-notification\" hx-swap=\"innerHTML\" title=\"Resume\">▶ Resume</button>\n        <button class=\"btn btn-xs btn-danger\" hx-post=\"/api/vms/")
      ∷ escaped (some name)
      ∷ raw (
          text
            "/force-stop\" hx-target=\"#vm-notification\" hx-swap=\"innerHTML\" hx-confirm=\"Force stop ")
      ∷ escaped (some name)
      ∷ raw (text "? This may cause data loss.\" title=\"Force power off\">⚡ Force</button>\n")
      ∷ [])
    ∷ []
vm_buttons shutoff name =
    (raw (text "        <button class=\"btn btn-xs btn-success btn-vm-start\" hx-post=\"/api/vms/")
      ∷ escaped (some name)
      ∷ raw (
          text
            "/start\" hx-target=\"#vm-notification\" hx-swap=\"innerHTML\" title=\"Start VM\">▶ Start</button>\n")
      ∷ [])
    ∷ []
vm_buttons other name =
    (raw (text "        <button class=\"btn btn-xs btn-success btn-vm-start\" hx-post=\"/api/vms/")
      ∷ escaped (some name)
      ∷ raw (
          text
            "/start\" hx-target=\"#vm-notification\" hx-swap=\"innerHTML\" title=\"Start VM\">▶ Start</button>\n        <button class=\"btn btn-xs btn-danger\" hx-post=\"/api/vms/")
      ∷ escaped (some name)
      ∷ raw (
          text
            "/force-stop\" hx-target=\"#vm-notification\" hx-swap=\"innerHTML\" hx-confirm=\"Force stop ")
      ∷ escaped (some name)
      ∷ raw (text "?\" title=\"Force power off\">⚡ Force</button>\n")
      ∷ [])
    ∷ []

abbrev pub vm_item : VmInfo → List (List Part)
vm_item vm =
    vm_head vm ++ (vm_buttons vm.state vm.name ++ ((raw (text "    </div>\n</div>\n") ∷ []) ∷ []))

unfoldable pub vm_items : List VmInfo → List (List Part)
vm_items [] = []
vm_items (vm ∷ vms) = vm_item vm ++ vm_items vms

unfoldable pub render_vm_list : List VmInfo → Bytes
render_vm_list [] = text "<p class=\"placeholder\">No virtual machines found</p>"
render_vm_list (vm ∷ vms) = built (length (vm ∷ vms) * 1024) (vm_items (vm ∷ vms))

abbrev pub is_active : VmState → Bool
is_active running = true
is_active paused = true
is_active _ = false

abbrev badge_class : SnapType → Bytes
badge_class internal = codes "badge-internal"
badge_class _ = codes "badge-external"

abbrev badge_text : SnapType → Bytes
badge_text internal = codes "Internal"
badge_text _ = codes "External"

abbrev pub detail_head :
    Bytes → Option Bytes → Option Bytes → Option Bytes → SnapType → List (List Part)
detail_head vm_name id description time type =
    (raw (text "<div class=\"snapshot-info\">\n") ∷ [])
    ∷ (raw (text "    <h3>") ∷ escaped id ∷ raw (text "</h3>\n") ∷ [])
    ∷ (raw (text "    <div class=\"snapshot-meta\">\n") ∷ [])
    ∷ (raw (text "        <span class=\"badge ")
        ∷ raw (badge_class type)
        ∷ raw (text "\">")
        ∷ raw (badge_text type)
        ∷ raw (text "</span>\n")
        ∷ [])
    ∷ (raw (text "        <span class=\"snap-date\">") ∷ escaped time ∷ raw (text "</span>\n") ∷ [])
    ∷ (raw (text "    </div>\n") ∷ [])
    ∷ (raw (text "    <p class=\"snap-desc\">") ∷ escaped description ∷ raw (text "</p>\n") ∷ [])
    ∷ (raw (
          text
            "    <button class=\"btn btn-sm btn-secondary edit-desc-btn\"\n            hx-get=\"/api/vms/")
        ∷ escaped (some vm_name)
        ∷ raw (text "/snapshots/")
        ∷ escaped id
        ∷ raw (
            text
              "/edit\"\n            hx-target=\"#snapshot-detail\"\n            hx-swap=\"innerHTML\"\n            hx-indicator=\"#snap-action-loading\">\n        ✏ Edit Description\n    </button>\n")
        ∷ [])
    ∷ []

abbrev pub current_mark : Bool → List (List Part)
current_mark false = []
current_mark true =
    (raw (text "    <div class=\"snap-current\">★ Current Snapshot</div>\n") ∷ []) ∷ []

abbrev pub revert_button : Bytes → Option Bytes → List (List Part)
revert_button vm_name id =
    (raw (text "    <div class=\"snap-actions\">\n") ∷ [])
    ∷ (raw (text "        <button class=\"btn btn-primary\"\n                hx-get=\"/api/vms/")
        ∷ escaped (some vm_name)
        ∷ raw (text "/snapshots/")
        ∷ escaped id
        ∷ raw (
            text
              "/revert-confirm\"\n                hx-target=\"#snapshot-detail\"\n                hx-swap=\"innerHTML\"\n                hx-indicator=\"#snap-action-loading\">\n            ↩ Revert\n        </button>\n")
        ∷ [])
    ∷ []

abbrev pub delete_button : Bool → Bytes → Option Bytes → List (List Part)
delete_button true vm_name id =
    (raw (
        text
          "        <button class=\"btn btn-danger\" disabled\n                title=\"Shut down the VM to delete snapshots\">\n            🗑 Delete\n        </button>\n")
      ∷ [])
    ∷ []
delete_button false vm_name id =
    (raw (text "        <button class=\"btn btn-danger\"\n                hx-delete=\"/api/vms/")
      ∷ escaped (some vm_name)
      ∷ raw (text "/snapshots/")
      ∷ escaped id
      ∷ raw (
          text
            "\"\n                hx-target=\"#snapshot-tree\"\n                hx-swap=\"innerHTML\"\n                hx-indicator=\"#snap-action-loading\"\n                hx-confirm=\"Delete snapshot '")
      ∷ escaped id
      ∷ raw (text "'?\">\n            🗑 Delete\n        </button>\n")
      ∷ [])
    ∷ []

abbrev pub merge_button : SnapType → Bool → Bytes → Option Bytes → List (List Part)
merge_button external true vm_name id =
    (raw (
        text
          "        <button class=\"btn btn-warning\" disabled\n                title=\"Shut down the VM to merge snapshots\">\n            ⊕ Merge\n        </button>\n")
      ∷ [])
    ∷ []
merge_button external false vm_name id =
    (raw (text "        <button class=\"btn btn-warning\"\n                hx-post=\"/api/vms/")
      ∷ escaped (some vm_name)
      ∷ raw (text "/snapshots/")
      ∷ escaped id
      ∷ raw (
          text
            "/merge\"\n                hx-target=\"#snapshot-tree\"\n                hx-swap=\"innerHTML\"\n                hx-indicator=\"#snap-action-loading\"\n                hx-confirm=\"Merge snapshot '")
      ∷ escaped id
      ∷ raw (text "'?\">\n            ⊕ Merge\n        </button>\n")
      ∷ [])
    ∷ []
merge_button _ active vm_name id = []

abbrev pub detail_tail : List (List Part)
detail_tail =
    (raw (text "    </div>\n") ∷ [])
    ∷ (raw (
          text
            "    <div id=\"snap-action-loading\" class=\"htmx-indicator snap-action-busy\">\n        <span class=\"spinner\"></span> Processing…\n    </div>\n")
        ∷ [])
    ∷ (raw (text "</div>\n") ∷ [])
    ∷ []

abbrev pub detail_parts : Bytes → Node → VmState → List (List Part)
detail_parts vm_name (node i cs) state =
    detail_head vm_name i.id i.description i.creation_time i.type
    ++ (current_mark i.is_current
        ++ (revert_button vm_name i.id
            ++ (delete_button (is_active state) vm_name i.id
                ++ (merge_button i.type (is_active state) vm_name i.id ++ detail_tail))))

unfoldable pub render_snapshot_detail : Bytes → Option Node → VmState → Bytes
render_snapshot_detail vm_name none state = text "<p class=\"placeholder\">Snapshot not found</p>"
render_snapshot_detail vm_name (some snap) state = built 4096 (detail_parts vm_name snap state)
