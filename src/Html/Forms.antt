-- ===== src/Html/Forms.antt =====
-- Pages of src/html_render.c: the forms and the help on the guest agent.
use qemu_snapshot_web_manage.Prelude.{
  ◌==◌, Bool, true, false, Option, none, some, List, [], ◌∷◌, ◌++◌, if◌then◌else◌, Bytes, codes,
}
use qemu_snapshot_web_manage.Prelude.Int.{ℤ, pos, negsuc}
use qemu_snapshot_web_manage.Backend.{
  GuestOs, linux_systemd, linux_openrc, linux_other, windows, freebsd,
}
use qemu_snapshot_web_manage.Html.Template.{Part, raw, escaped, text, variation, built}

-- The warning stands there only for 0: -1 is for a machine without NVRAM.
abbrev pub nvram_banner : ℤ → Bytes → List (List Part)
nvram_banner (pos n) vm_name =
    if n == 0
    then (raw (
          text
            "        <div class=\"alert alert-warning\" style=\"margin-bottom:0.75rem\">\n            ⚠"
          ++ (variation
              ++ text
                  " <strong>NVRAM is in raw format.</strong> Internal snapshots require qcow2 NVRAM. Stop the VM first, then convert.\n            <div style=\"margin-top:0.5rem\">\n              <button type=\"button\" class=\"btn btn-sm btn-warning\"\n                onclick=\"event.preventDefault();this.closest('.modal-overlay').remove();htmx.ajax('POST','/api/vms/"))
        ∷ escaped (some vm_name)
        ∷ raw (
            text
              "/convert-nvram',{target:'#vm-notification',swap:'innerHTML'})\">\n                🔧 Convert NVRAM to qcow2\n              </button>\n            </div>\n        </div>\n")
        ∷ [])
      ∷ []
    else []
nvram_banner (negsuc n) vm_name = []

abbrev pub create_head : List (List Part)
create_head =
    (raw (text "<div class=\"modal-overlay\" onclick=\"this.remove()\">\n") ∷ [])
    ∷ (raw (text "    <div class=\"modal\" onclick=\"event.stopPropagation()\">\n") ∷ [])
    ∷ (raw (text "        <h3>Create Snapshot</h3>\n") ∷ [])
    ∷ []

abbrev pub create_rest : Bytes → List (List Part)
create_rest vm_name =
    (raw (text "        <div id=\"snap-form-error\"></div>\n        <form hx-post=\"/api/vms/")
      ∷ escaped (some vm_name)
      ∷ raw (
          text
            "/snapshots\"\n              hx-target=\"#snap-form-error\"\n              hx-swap=\"innerHTML\"\n              hx-indicator=\"#snap-creating\"\n              hx-on::after-request=\"if(event.detail.successful){document.getElementById('vm-notification').innerHTML=event.detail.xhr.responseText;this.closest('.modal-overlay').remove();}\">\n")
      ∷ [])
    ∷ (raw (
          text
            "            <div class=\"form-group\">\n                <label class=\"form-label\">Name</label>\n                <input class=\"form-input\" name=\"name\" placeholder=\"my-snapshot\" required>\n            </div>\n")
        ∷ [])
    ∷ (raw (
          text
            "            <div class=\"form-group\">\n                <label class=\"form-label\">Description</label>\n                <textarea class=\"form-input\" name=\"description\" rows=\"3\" \n                          placeholder=\"Optional description\"></textarea>\n            </div>\n")
        ∷ [])
    ∷ (raw (
          text
            "            <div class=\"form-group\">\n                <label class=\"form-label\">Type</label>\n                <select class=\"form-select\" name=\"type\">\n                    <option value=\"internal\">Internal</option>\n                    <option value=\"external\">External</option>\n                </select>\n                <p class=\"form-hint\">\n                    <strong>Internal</strong> — saves full VM state (memory + disk). Like VirtualBox &ldquo;save state&rdquo;. Requires qcow2 NVRAM on UEFI VMs.<br>\n                    <strong>External</strong> — disk-only snapshot. Faster, but does not capture memory. Must be merged later to reclaim space.\n                </p>\n            </div>\n")
        ∷ [])
    ∷ (raw (
          text
            "            <div class=\"form-actions\">\n                <button type=\"submit\" class=\"btn btn-primary\"                        id=\"snap-create-btn\">Create</button>\n                <button type=\"button\" class=\"btn btn-ghost\" \n                        onclick=\"this.closest('.modal-overlay').remove()\">Cancel</button>\n            </div>\n            <div id=\"snap-creating\" class=\"htmx-indicator snap-loading\">\n                <span class=\"spinner\"></span> Creating snapshot… This may take a moment for running VMs.\n            </div>\n")
        ∷ [])
    ∷ (raw (text "        </form>\n") ∷ [])
    ∷ (raw (text "    </div>\n") ∷ [])
    ∷ (raw (text "</div>\n") ∷ [])
    ∷ []

abbrev pub create_parts : Bytes → ℤ → List (List Part)
create_parts vm_name nvram_is_qcow2 =
    create_head ++ (nvram_banner nvram_is_qcow2 vm_name ++ create_rest vm_name)

unfoldable pub render_create_snapshot_form : Bytes → ℤ → Bytes
render_create_snapshot_form vm_name nvram_is_qcow2 =
    built 4096 (create_parts vm_name nvram_is_qcow2)

abbrev pub add_folder_parts : Bytes → List (List Part)
add_folder_parts vm_name =
    (raw (text "<div class=\"modal-overlay\" onclick=\"this.remove()\">\n") ∷ [])
    ∷ (raw (text "    <div class=\"modal\" onclick=\"event.stopPropagation()\">\n") ∷ [])
    ∷ (raw (text "        <h3>Add Shared Folder</h3>\n") ∷ [])
    ∷ (raw (text "        <form hx-post=\"/api/vms/")
        ∷ escaped (some vm_name)
        ∷ raw (
            text
              "/shared-folders\"\n              hx-target=\"#folder-notification-persistent\"\n              hx-swap=\"innerHTML\"\n              hx-on::after-request=\"this.closest('.modal-overlay').remove()\">\n")
        ∷ [])
    ∷ (raw (
          text
            "            <div class=\"form-group\">\n                <label class=\"form-label\">Source Directory (host path)</label>\n                <div class=\"input-with-button\">\n                    <input class=\"form-input\" name=\"source_dir\" id=\"sf-source-dir\"\n                           placeholder=\"/home/user/Documents\" required\n                           oninput=\"var p=this.value.replace(/\\/$/,''); var n=p.split('/').pop()||'share'; document.getElementById('sf-mount-tag').value='sf_'+n.replace(/[^a-zA-Z0-9_-]/g,'_');\">\n                    <button type=\"button\" class=\"btn btn-sm\" onclick=\"openDirBrowser()\">Browse...</button>\n                </div>\n                <small class=\"form-hint\">Full path on the host machine (e.g. /home/user/Downloads)</small>\n            </div>\n")
        ∷ [])
    ∷ (raw (
          text
            "            <div class=\"form-group\">\n                <label class=\"form-label\">Mount Tag</label>\n                <input class=\"form-input\" name=\"mount_tag\" id=\"sf-mount-tag\"\n                       placeholder=\"sf_Downloads\" required>\n                <small class=\"form-hint\">Auto-generated from directory name. Used to mount inside VM.</small>\n            </div>\n")
        ∷ [])
    ∷ (raw (
          text
            "            <div class=\"form-group\">\n                <label class=\"form-label\">Filesystem Type</label>\n                <select class=\"form-select\" name=\"fs_type\">\n                    <option value=\"virtiofs\">virtiofs</option>\n                    <option value=\"9p\">9p</option>\n                </select>\n            </div>\n")
        ∷ [])
    ∷ (raw (
          text
            "            <div class=\"form-group\">\n                <label class=\"form-label\">\n                    <input type=\"checkbox\" name=\"read_only\" value=\"1\"> Read Only\n                </label>\n            </div>\n")
        ∷ [])
    ∷ (raw (
          text
            "            <div class=\"form-actions\">\n                <button type=\"submit\" class=\"btn btn-primary\">Add Folder</button>\n                <button type=\"button\" class=\"btn btn-ghost\"\n                        onclick=\"this.closest('.modal-overlay').remove()\">Cancel</button>\n            </div>\n")
        ∷ [])
    ∷ (raw (text "        </form>\n") ∷ [])
    ∷ (raw (text "    </div>\n") ∷ [])
    ∷ (raw (text "</div>\n") ∷ [])
    ∷ []

unfoldable pub render_add_shared_folder_form : Bytes → Bytes
render_add_shared_folder_form vm_name = built 4096 (add_folder_parts vm_name)

abbrev is_linux : GuestOs → Bool
is_linux linux_systemd = true
is_linux linux_openrc = true
is_linux linux_other = true
is_linux _ = false

abbrev is_windows : GuestOs → Bool
is_windows windows = true
is_windows _ = false

abbrev is_freebsd : GuestOs → Bool
is_freebsd freebsd = true
is_freebsd _ = false

abbrev open_mark : Bool → Bytes
open_mark true = codes " open"
open_mark false = []

-- The source appends this block twice.
abbrev pub detail_block : Option Bytes → List (List Part)
detail_block none = []
detail_block (some detail) =
    (raw (text "<br><code style=\"font-size:0.85em\">")
      ∷ escaped (some detail)
      ∷ raw (text "</code>")
      ∷ [])
    ∷ []

abbrev pub help_parts : Bytes → Option Bytes → GuestOs → List (List Part)
help_parts operation detail detected_os =
    ((raw (text "<div class=\"alert alert-error\">\n  <strong>✗ ") ∷ [])
      ∷ (raw (text "Failed to ") ∷ escaped (some operation) ∷ raw (text "</strong>") ∷ [])
      ∷ [])
    ++ (detail_block detail
        ++ (detail_block detail
            ++ ((raw (
                    text
                      "<br><br>  This feature uses the <strong>QEMU Guest Agent</strong> to run commands inside the VM. The guest agent must be installed and running in the guest OS.\n  <br><br>\n")
                  ∷ [])
                ∷ (raw (text "  <details")
                    ∷ raw (open_mark (is_linux detected_os))
                    ∷ raw (text ">\n")
                    ∷ [])
                ∷ (raw (
                      text
                        "    <summary><strong>🐧 Linux</strong></summary>\n    <div style=\"padding:8px 0 4px 16px\">\n      <details>\n        <summary>Fedora / RHEL / CentOS</summary>\n        <pre style=\"margin:4px 0\">sudo dnf install qemu-guest-agent\nsudo systemctl enable --now qemu-guest-agent</pre>\n      </details>\n      <details>\n        <summary>Ubuntu / Debian</summary>\n        <pre style=\"margin:4px 0\">sudo apt install qemu-guest-agent\nsudo systemctl enable --now qemu-guest-agent</pre>\n      </details>\n      <details>\n        <summary>Arch Linux</summary>\n        <pre style=\"margin:4px 0\">sudo pacman -S qemu-guest-agent\nsudo systemctl enable --now qemu-guest-agent</pre>\n      </details>\n      <details>\n        <summary>Alpine Linux</summary>\n        <pre style=\"margin:4px 0\">apk add qemu-guest-agent\nrc-update add qemu-guest-agent\nrc-service qemu-guest-agent start</pre>\n      </details>\n      <details>\n        <summary>openSUSE</summary>\n        <pre style=\"margin:4px 0\">sudo zypper install qemu-guest-agent\nsudo systemctl enable --now qemu-guest-agent</pre>\n      </details>\n    </div>\n  </details>\n")
                    ∷ [])
                ∷ (raw (text "  <details")
                    ∷ raw (open_mark (is_windows detected_os))
                    ∷ raw (text ">\n")
                    ∷ [])
                ∷ (raw (
                      text
                        "    <summary><strong>🪟 Windows</strong></summary>\n    <div style=\"padding:8px 0 4px 16px\">\n      Download and install the <a href=\"https://fedorapeople.org/groups/virt/virtio-win/direct-downloads/stable-virtio/\" target=\"_blank\">VirtIO guest tools (virtio-win)</a>.<br>\n      The QEMU Guest Agent is included in the installer.\n    </div>\n  </details>\n")
                    ∷ [])
                ∷ (raw (text "  <details")
                    ∷ raw (open_mark (is_freebsd detected_os))
                    ∷ raw (text ">\n")
                    ∷ [])
                ∷ (raw (
                      text
                        "    <summary><strong>😈 FreeBSD</strong></summary>\n    <div style=\"padding:8px 0 4px 16px\">\n      <pre style=\"margin:4px 0\">pkg install qemu-guest-agent\nsysrc qemu_guest_agent_enable=YES\nservice qemu-guest-agent start</pre>\n    </div>\n  </details>\n  <br>\n  <details>\n    <summary><strong>🔒 SELinux issue?</strong> (Fedora/RHEL)</summary>\n    <div style=\"padding:8px 0 4px 16px\">\n      If the agent is installed but operations still fail, SELinux may be blocking it:\n      <pre style=\"margin:4px 0\">sudo semanage permissive -a virt_qemu_ga_t</pre>\n      Requires: <code>sudo dnf install policycoreutils-python-utils</code>\n    </div>\n  </details>\n</div>\n")
                    ∷ [])
                ∷ [])))

unfoldable pub render_guest_agent_help : Bytes → Option Bytes → GuestOs → Bytes
render_guest_agent_help operation detail detected_os =
    built 4096 (help_parts operation detail detected_os)
