-- ===== src/Html/Pages.antt =====
-- Pages of src/html_render.c: messages, the warning of orphaned snapshots and the list of directories.
use qemu_snapshot_web_manage.Prelude.{
  ℕ, ◌-◌, ◌==◌, Option, none, some, List, [], ◌∷◌, ◌++◌, ltb, if◌then◌else◌, Bytes, codes, length,
  take, strcmp_eq, snprintf_s,
}
use qemu_snapshot_web_manage.Prelude.Int.{pos}
use qemu_snapshot_web_manage.Util.Escape.{html_escape}
use qemu_snapshot_web_manage.Util.Url.{url_encode}
use qemu_snapshot_web_manage.Server.{strrchr, show_long}
use qemu_snapshot_web_manage.Html.{Strbuf, sb_init, sb_append, sb_appendf, sb_finish}

abbrev or_empty : Option Bytes → Bytes
or_empty none = []
or_empty (some text) = text

-- The check mark and the cross, in UTF-8.
abbrev check_mark : Bytes
check_mark = 0xe2 ∷ 0x9c ∷ 0x93 ∷ []

abbrev cross : Bytes
cross = 0xe2 ∷ 0x9c ∷ 0x97 ∷ []

abbrev alert : Bytes → Bytes → Bytes → Bytes
alert class mark message =
    codes "<div class=\"alert "
    ++ (class ++ (codes "\">" ++ (mark ++ (codes " " ++ (message ++ codes "</div>")))))

unfoldable pub render_success : Option Bytes → Bytes
render_success message = alert (codes "alert-success") check_mark (html_escape message)

unfoldable pub render_error : Option Bytes → Bytes
render_error message = alert (codes "alert-error") cross (html_escape message)

unfoldable pub render_error_html : Bytes → Bytes
render_error_html html_message = alert (codes "alert-error") cross html_message

abbrev plural : ℕ → Bytes
plural count = if count == 1 then [] else codes "s"

unfoldable pub append_orphans : Strbuf → List Bytes → Strbuf
append_orphans sb [] = sb
append_orphans sb (name ∷ names) =
    append_orphans
      (sb_appendf sb (codes "      <li>" ++ (html_escape (some name) ++ codes "</li>\n"))) names

abbrev warning_sign : Bytes
warning_sign = 0xe2 ∷ 0x9a ∷ 0xa0 ∷ 0xef ∷ 0xb8 ∷ 0x8f ∷ []

abbrev broom : Bytes
broom = 0xf0 ∷ 0x9f ∷ 0xa7 ∷ 0xb9 ∷ []

abbrev orphan_page : Bytes → List Bytes → Bytes
orphan_page esc_vm names =
    let count = show_long (pos (length names)) in
    let sb0 = sb_init 1024 in
    let sb1 = sb_append sb0 (
      some (
        codes
          "<div class=\"orphan-warning\">\n  <div class=\"orphan-header\">\n    <span class=\"orphan-icon\">"
        ++ (warning_sign ++ codes "</span>\n"))) in
    let sb2 = sb_appendf sb1 (
      codes "    <strong>Found "
      ++ (count
          ++ (codes " orphaned snapshot"
              ++ (plural (length names) ++ codes " in disk files</strong>\n")))) in
    let sb3 = sb_append sb2 (
      some (
        codes
          "  </div>\n  <p class=\"orphan-detail\">These waste disk space and may cause naming conflicts when creating new snapshots.</p>\n  <details class=\"orphan-list-details\">\n    <summary>Show orphan names</summary>\n    <ul class=\"orphan-list\">\n")) in
    let sb4 = append_orphans sb3 names in
    let sb5 = sb_append sb4 (some (codes "    </ul>\n  </details>\n")) in
    let sb6 = sb_appendf sb5 (
      codes "  <button class=\"btn btn-sm btn-warning\"\n          hx-post=\"/api/vms/"
      ++ (esc_vm
          ++ (codes
                "/orphan-cleanup\"\n          hx-target=\"#orphan-check\"\n          hx-swap=\"innerHTML\"\n          hx-confirm=\"Delete "
              ++ (count
                  ++ (codes " orphaned snapshot"
                      ++ (plural (length names)
                          ++ (codes " from disk files?\">\n    "
                              ++ (broom ++ codes " Clean Up\n  </button>\n</div>\n")))))))) in
    or_empty (sb_finish sb6).0

unfoldable pub render_orphan_warning : Bytes → List Bytes → Bytes
render_orphan_warning vm_name [] = []
render_orphan_warning vm_name (name ∷ names) =
    orphan_page (html_escape (some vm_name)) (name ∷ names)

abbrev root : Bytes
root = codes "/"

-- One level up, by the last slash of the path.
abbrev up_from : Bytes → Option Bytes → Bytes
up_from current_path none = root
up_from current_path (some last_slash) =
    if ltb (length last_slash) (length current_path)
    then snprintf_s 4096 (take (length current_path - length last_slash) current_path)
    else root

unfoldable pub entry_path : Bytes → Bytes → Bytes
entry_path current_path entry =
    if strcmp_eq entry (codes "..")
    then up_from current_path (strrchr current_path b'/')
    else if strcmp_eq current_path root
    then snprintf_s 4096 (root ++ entry)
    else snprintf_s 4096 (current_path ++ b'/' ∷ entry)

abbrev entry_icon : Bytes → Bytes
entry_icon entry =
    if strcmp_eq entry (codes "..")
    then 0xe2 ∷ 0xac ∷ 0x86 ∷ 0xef ∷ 0xb8 ∷ 0x8f ∷ []
    else 0xf0 ∷ 0x9f ∷ 0x93 ∷ 0x82 ∷ []

unfoldable pub append_entries : Bytes → Strbuf → List Bytes → Strbuf
append_entries current_path sb [] = sb
append_entries current_path sb (entry ∷ entries) =
    append_entries current_path
      (sb_appendf sb (
        codes "        <div class=\"dir-entry\" hx-get=\"/api/browse?path="
        ++ (url_encode (entry_path current_path entry)
            ++ (codes "\" hx-target=\"#dir-browser-content\" hx-swap=\"innerHTML\">"
                ++ (entry_icon entry
                    ++ (codes " " ++ (html_escape (some entry) ++ codes "</div>\n")))))))
      entries

abbrev folder_icon : Bytes
folder_icon = 0xf0 ∷ 0x9f ∷ 0x93 ∷ 0x81 ∷ []

unfoldable pub render_directory_listing : Bytes → List Bytes → Bytes
render_directory_listing current_path entries =
    let esc_path = html_escape (some current_path) in
    let sb0 = sb_init 4096 in
    let sb1 = sb_append sb0 (some (codes "<div class=\"dir-browser\">\n")) in
    let sb2 = sb_appendf sb1 (
      codes "    <div class=\"dir-current-path\">"
      ++ (folder_icon ++ (codes " " ++ (esc_path ++ codes "</div>\n")))) in
    let sb3 = sb_append sb2 (some (codes "    <div class=\"dir-list\">\n")) in
    let sb4 = append_entries current_path sb3 entries in
    let sb5 = sb_append sb4 (some (codes "    </div>\n")) in
    let sb6 = sb_appendf sb5 (
      codes
        "    <div class=\"dir-actions\">\n        <button class=\"btn btn-primary\" onclick=\"selectDirectory(&#39;"
      ++ (esc_path
          ++ codes
              "&#39;)\">Select This Folder</button>\n        <button class=\"btn btn-ghost\" onclick=\"document.getElementById(&#39;dir-browser-modal&#39;).remove()\">Cancel</button>\n    </div>\n")) in
    let sb7 = sb_append sb6 (some (codes "</div>\n")) in or_empty (sb_finish sb7).0
