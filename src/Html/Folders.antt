-- ===== src/Html/Folders.antt =====
-- Pages of src/html_render.c: the shared folders of a machine.
use qemu_snapshot_web_manage.Prelude.{
  ℕ, ◌*◌, ◌==◌, Bool, true, false, Option, none, some, List, [], ◌∷◌, ◌++◌, if◌then◌else◌, Bytes,
  codes, length, strcmp_eq,
}
use qemu_snapshot_web_manage.Prelude.Int.{ℤ, pos, negsuc}
use qemu_snapshot_web_manage.Backend.{SharedFolder}
use qemu_snapshot_web_manage.Html.Template.{Part, raw, escaped, text, variation, built}

abbrev pub is_int : ℤ → ℕ → Bool
is_int (pos n) m = n == m
is_int (negsuc n) m = false

-- 1 for active, 0 for not, and anything else for unknown.
abbrev pub automount_bar : ℤ → Bytes → List (List Part)
automount_bar active vm_name =
    if is_int active 1
    then (raw (
          text
            "    <span class=\"badge badge-mounted\">✓ Auto-Mount Active</span>\n    <span class=\"automount-hint\">VirtioFS shares are automatically mounted to /media/</span>\n")
        ∷ [])
      ∷ []
    else if is_int active 0
    then (raw (text "    <button class=\"btn btn-sm btn-primary\"\n            hx-post=\"/api/vms/")
        ∷ escaped (some vm_name)
        ∷ raw (
            text
              "/shared-folders/automount\"\n            hx-target=\"#folder-notification-persistent\"\n            hx-swap=\"innerHTML\"\n            hx-indicator=\"#automount-spinner\"\n            hx-disabled-elt=\"this\"\n            hx-confirm=\"Install auto-mount service in the guest VM? This adds a systemd timer that mounts VirtioFS shares to /media/ automatically.\">\n        ⚙"
            ++ (variation
                ++ text
                    " Setup Auto-Mount\n    </button>\n    <span id=\"automount-spinner\" class=\"spinner htmx-indicator\"></span>\n"))
        ∷ [])
      ∷ []
    else []

abbrev pub read_only_badge : Bool → List (List Part)
read_only_badge false = []
read_only_badge true =
    (raw (text "                <span class=\"badge badge-readonly\">Read Only</span>\n") ∷ []) ∷ []

abbrev pub mounted_badge : ℤ → List (List Part)
mounted_badge mounted =
    if is_int mounted 1
    then (raw (text "                <span class=\"badge badge-mounted\">✓ Mounted</span>\n") ∷ [])
      ∷ []
    else if is_int mounted 0
    then (raw (text "                <span class=\"badge badge-unmounted\">Not Mounted</span>\n")
        ∷ [])
      ∷ []
    else []

abbrev pub is_9p : Option Bytes → Bool
is_9p none = false
is_9p (some fs_type) = strcmp_eq fs_type (codes "9p")

abbrev pub mount_hint : SharedFolder → List (List Part)
mount_hint f =
    if is_9p f.fs_type
    then (raw (text "                <div class=\"folder-mount-hint\"><code>sudo mkdir -p /media/")
        ∷ escaped f.mount_tag
        ∷ raw (text " &amp;&amp; sudo mount -t 9p -o trans=virtio ")
        ∷ escaped f.mount_tag
        ∷ raw (text " /media/")
        ∷ escaped f.mount_tag
        ∷ raw (text "</code></div>\n")
        ∷ [])
      ∷ []
    else (raw (text "                <div class=\"folder-mount-hint\"><code>sudo mkdir -p /media/")
        ∷ escaped f.mount_tag
        ∷ raw (text " &amp;&amp; sudo mount -t virtiofs ")
        ∷ escaped f.mount_tag
        ∷ raw (text " /media/")
        ∷ escaped f.mount_tag
        ∷ raw (text "</code></div>\n")
        ∷ [])
      ∷ []

abbrev pub detach_button : Bytes → SharedFolder → List (List Part)
detach_button vm_name f =
    (raw (
        text
          "        <button class=\"btn btn-sm btn-danger\"\n                hx-delete=\"/api/vms/")
      ∷ escaped (some vm_name)
      ∷ raw (text "/shared-folders/")
      ∷ escaped f.mount_tag
      ∷ raw (
          text
            "\"\n                hx-target=\"#folder-notification-persistent\"\n                hx-swap=\"innerHTML\"\n                hx-confirm=\"Detach shared folder '")
      ∷ escaped f.mount_tag
      ∷ raw
          (text "'? (Files on host are not deleted)\">\n            ✖ Detach\n        </button>\n")
      ∷ [])
    ∷ []

abbrev pub mount_button : Bytes → SharedFolder → List (List Part)
mount_button vm_name f =
    if is_int f.mounted 1
    then (raw (
          text
            "            <button class=\"btn btn-sm btn-success\" disabled\n                    title=\"Already mounted inside guest\">\n                ⬆"
          ++ (variation ++ text " Mounted\n            </button>\n"))
        ∷ [])
      ∷ []
    else (raw (
          text
            "            <button class=\"btn btn-sm btn-success\"\n                    hx-post=\"/api/vms/")
        ∷ escaped (some vm_name)
        ∷ raw (text "/shared-folders/")
        ∷ escaped f.mount_tag
        ∷ raw (
            text
              "/mount\"\n                    hx-target=\"#folder-notification-persistent\"\n                    hx-swap=\"innerHTML\"\n                    hx-confirm=\"Mount ")
        ∷ escaped f.mount_tag
        ∷ raw (
            text
              " inside the guest VM?\"\n                    title=\"Mount inside guest via QEMU Guest Agent\">\n                ⬆"
            ++ (variation ++ text " Mount\n            </button>\n"))
        ∷ [])
      ∷ []

abbrev pub unmount_button : Bytes → SharedFolder → List (List Part)
unmount_button vm_name f =
    if is_int f.mounted 1
    then (raw (
          text
            "            <button class=\"btn btn-sm btn-warning\"\n                    hx-post=\"/api/vms/")
        ∷ escaped (some vm_name)
        ∷ raw (text "/shared-folders/")
        ∷ escaped f.mount_tag
        ∷ raw (
            text
              "/unmount\"\n                    hx-target=\"#folder-notification-persistent\"\n                    hx-swap=\"innerHTML\"\n                    hx-confirm=\"Unmount ")
        ∷ escaped f.mount_tag
        ∷ raw (
            text
              " from the guest VM?\"\n                    title=\"Unmount inside guest via QEMU Guest Agent\">\n                ⬇"
            ++ (variation ++ text " Unmount\n            </button>\n"))
        ∷ [])
      ∷ []
    else if is_int f.mounted 0
    then (raw (
          text
            "            <button class=\"btn btn-sm btn-warning\" disabled\n                    title=\"Not currently mounted\">\n                ⬇"
          ++ (variation ++ text " Unmount\n            </button>\n"))
        ∷ [])
      ∷ []
    else (raw (
          text
            "            <button class=\"btn btn-sm btn-warning\"\n                    hx-post=\"/api/vms/")
        ∷ escaped (some vm_name)
        ∷ raw (text "/shared-folders/")
        ∷ escaped f.mount_tag
        ∷ raw (
            text
              "/unmount\"\n                    hx-target=\"#folder-notification-persistent\"\n                    hx-swap=\"innerHTML\"\n                    hx-confirm=\"Unmount ")
        ∷ escaped f.mount_tag
        ∷ raw (
            text
              " from the guest VM?\"\n                    title=\"Unmount inside guest via QEMU Guest Agent\">\n                ⬇"
            ++ (variation ++ text " Unmount\n            </button>\n"))
        ∷ [])
      ∷ []

abbrev pub folder_buttons : Bool → Bytes → SharedFolder → List (List Part)
folder_buttons true vm_name f =
    (raw (
        text "            <span class=\"badge badge-warning\">⚠"
        ++ (variation
            ++ text
                " Stop &amp; Start from web UI to activate</span>\n            <div style=\"margin-top:6px;padding:6px 10px;background:var(--color-bg-secondary,#f6f8fa);border-radius:4px;font-size:0.85em;line-height:1.5\"><strong>Why not just reboot from inside the VM?</strong><br>• <strong>Guest reboot</strong> only restarts the OS. The QEMU process keeps running with its original hardware config.<br>• <strong>Stop &amp; Start</strong> (from this web UI) destroys the QEMU process and creates a new one with the latest config &mdash; like powering off the hardware and turning it back on with new hardware installed.</div>\n"))
      ∷ [])
    ∷ detach_button vm_name f
folder_buttons false vm_name f =
    mount_button vm_name f ++ (unmount_button vm_name f ++ detach_button vm_name f)

abbrev pub folder_head : SharedFolder → List (List Part)
folder_head f =
    (raw (text "    <div class=\"folder-item\">\n") ∷ [])
    ∷ (raw (text "        <div class=\"folder-header\">\n") ∷ [])
    ∷ (raw (text "            <div class=\"folder-icon\">📁</div>\n") ∷ [])
    ∷ (raw (text "            <div class=\"folder-info\">\n") ∷ [])
    ∷ (raw (text "                <div class=\"folder-tag\">")
        ∷ escaped f.mount_tag
        ∷ raw (text "</div>\n")
        ∷ [])
    ∷ (raw (text "                <div class=\"folder-path\" title=\"")
        ∷ escaped f.source_dir
        ∷ raw (text "\">")
        ∷ escaped f.source_dir
        ∷ raw (text "</div>\n")
        ∷ [])
    ∷ []

abbrev pub folder_middle : List (List Part)
folder_middle =
    (raw (text "            </div>\n") ∷ [])
    ∷ (raw (text "        </div>\n") ∷ [])
    ∷ (raw (text "        <div class=\"folder-actions\">\n") ∷ [])
    ∷ []

abbrev pub folder_end : List (List Part)
folder_end = (raw (text "        </div>\n") ∷ []) ∷ (raw (text "    </div>\n") ∷ []) ∷ []

abbrev pub folder_item : Bytes → SharedFolder → List (List Part)
folder_item vm_name f =
    folder_head f
    ++ (read_only_badge f.read_only
        ++ (mounted_badge f.mounted
            ++ (mount_hint f
                ++ (folder_middle ++ (folder_buttons f.needs_restart vm_name f ++ folder_end)))))

unfoldable pub folder_items : Bytes → List SharedFolder → List (List Part)
folder_items vm_name [] = []
folder_items vm_name (f ∷ folders) = folder_item vm_name f ++ folder_items vm_name folders

abbrev pub folders_head : List (List Part)
folders_head =
    (raw (text "<div id=\"folder-notification\"></div>\n") ∷ [])
    ∷ (raw (text "<div class=\"automount-status\">\n") ∷ [])
    ∷ []

abbrev pub folders_middle : List (List Part)
folders_middle =
    (raw (text "</div>\n") ∷ []) ∷ (raw (text "<div class=\"shared-folders-list\">\n") ∷ []) ∷ []

abbrev pub folders_end : List (List Part)
folders_end = (raw (text "</div>\n") ∷ []) ∷ []

abbrev pub folders_parts : Bytes → List SharedFolder → ℤ → List (List Part)
folders_parts vm_name folders active =
    folders_head
    ++ (automount_bar active vm_name
        ++ (folders_middle ++ (folder_items vm_name folders ++ folders_end)))

unfoldable pub render_shared_folders : Bytes → List SharedFolder → ℤ → Bytes
render_shared_folders vm_name [] active =
    text "<p class=\"placeholder\">No shared folders configured</p>"
render_shared_folders vm_name (f ∷ folders) active =
    built (length (f ∷ folders) * 512) (folders_parts vm_name (f ∷ folders) active)
