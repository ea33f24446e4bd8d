-- ===== src/Tests/Html.antt =====
-- Pages of src/html_render.c for concrete texts.
use qemu_snapshot_web_manage.Prelude.{◌≡◌, refl, ◌∷◌, ◌++◌, [], List, some, strcmp_eq, codes, Bytes}
use qemu_snapshot_web_manage.Server.{strrchr}
use qemu_snapshot_web_manage.Util.Escape.{html_escape, escape_each, html_byte}
use qemu_snapshot_web_manage.Html.Pages.{render_error, entry_path}
use qemu_snapshot_web_manage.VmState.{shutoff}
use qemu_snapshot_web_manage.Backend.{VmInfo}
use qemu_snapshot_web_manage.Html.Template.{text, encode, utf8}
use qemu_snapshot_web_manage.Html.Machines.{render_vm_list}
use qemu_snapshot_web_manage.Html.Markup.{markup}
use qemu_snapshot_web_manage.Html.Markup.Pages.{show, machines, without_texts, markup-show}
use qemu_snapshot_web_manage.Html.Builder.{Piece, plain, formatted}

abbrev pieces : List Piece
pieces = plain (codes "<p>") ∷ formatted (codes "a") ∷ plain (codes "</p>") ∷ []

render_error_test :
    render_error (some (codes "<b>"))
    ≡ codes "<div class=\"alert alert-error\">" ++ (0xe2 ∷ 0x9c ∷ 0x97 ∷ codes " &lt;b&gt;</div>")
unfolding render_error html_escape escape_each html_byte
render_error_test = refl

up_test : entry_path (codes "/home/me") (codes "..") ≡ codes "/home"
unfolding entry_path strcmp_eq strrchr
up_test = refl

down_test : entry_path (codes "/") (codes "etc") ≡ codes "/etc"
unfolding entry_path strcmp_eq
down_test = refl

-- A machine and a snapshot with markup in their names.
abbrev hostile : Bytes
hostile = codes "\"><script>"

abbrev hostile_vm : VmInfo
hostile_vm = record { name = hostile; uuid = []; state = shutoff; vcpus = 2; memory_kb = 2048 }

markup-show_example :
    markup (show (machines (hostile_vm ∷ [])))
    ≡ markup (show (without_texts (machines (hostile_vm ∷ []))))
markup-show_example = markup-show (machines (hostile_vm ∷ []))

-- The middle dot, the button's sign and a character outside the first plane.
utf8_test : text "·▶🗑" ≡ (0xc2 ∷ 0xb7 ∷ 0xe2 ∷ 0x96 ∷ 0xb6 ∷ 0xf0 ∷ 0x9f ∷ 0x97 ∷ 0x91 ∷ [])
unfolding text encode utf8
utf8_test = refl

placeholder_test :
    show (machines []) ≡ codes "<p class=\"placeholder\">No virtual machines found</p>"
unfolding show render_vm_list text encode utf8
placeholder_test = refl
