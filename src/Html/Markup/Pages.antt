-- ===== src/Html/Markup/Pages.antt =====
-- The pages of src/html_render.c against the same pages without names.
use qemu_snapshot_web_manage.Prelude.{
  ◌≡◌, refl, sym, ap₂, ◌∙◌, Bool, true, false, Option, none, some, List, [], ◌∷◌, ◌++◌, map, ◌==◌,
  if◌then◌else◌, Bytes, codes,
}
use mathlib.Core.List.{map-append}
use qemu_snapshot_web_manage.Prelude.Int.{ℤ, pos, negsuc}
use qemu_snapshot_web_manage.VmState.{VmState, running, paused, shutoff, other}
use qemu_snapshot_web_manage.Backend.{VmInfo, SharedFolder, GuestOs}
use qemu_snapshot_web_manage.Snapshot.{Node, node, nil, internal, external, current_state, SnapType}
use qemu_snapshot_web_manage.Html.Template.{Part}
use qemu_snapshot_web_manage.Html.Machines.{
  vm_item, vm_items, render_vm_list, detail_parts, render_snapshot_detail, vm_head, detail_head,
  revert_button, detail_tail, vm_buttons, current_mark, delete_button, merge_button, is_active,
}
use qemu_snapshot_web_manage.Html.Folders.{
  folder_head, folder_middle, folder_end, folders_head, folders_middle, folders_end, folder_item,
  folder_items, folders_parts, render_shared_folders, automount_bar, mounted_badge, mount_hint,
  mount_button, unmount_button, folder_buttons, read_only_badge, is_int, is_9p,
}
use qemu_snapshot_web_manage.Html.Forms.{
  create_head, create_rest, render_create_snapshot_form, create_parts, nvram_banner,
  render_add_shared_folder_form, add_folder_parts, render_guest_agent_help, help_parts,
  detail_block,
}
use qemu_snapshot_web_manage.Html.Markup.{
  markup, blank, blanks, built-markup, markup-append, markup-html_escape,
}
use qemu_snapshot_web_manage.Html.Pages.{render_success, render_error}
use qemu_snapshot_web_manage.Util.Escape.{html_escape}

-- A page with what it shows.
pub data View : Type 0 where
  machines : List VmInfo → View
  detail : Bytes → Option Node → VmState → View
  create_form : Bytes → ℤ → View
  folders : Bytes → List SharedFolder → ℤ → View
  add_form : Bytes → View
  agent_help : Bytes → Option Bytes → GuestOs → View
  success error : Option Bytes → View

unfoldable pub show : View → Bytes
show (machines vms) = render_vm_list vms
show (detail vm_name snap state) = render_snapshot_detail vm_name snap state
show (create_form vm_name nvram_is_qcow2) = render_create_snapshot_form vm_name nvram_is_qcow2
show (folders vm_name fs active) = render_shared_folders vm_name fs active
show (add_form vm_name) = render_add_shared_folder_form vm_name
show (agent_help operation text os) = render_guest_agent_help operation text os
show (success message) = render_success message
show (error message) = render_error message

-- The same without names and other texts, and without the sizes of a machine.
abbrev pub nameless : VmInfo → VmInfo
nameless vm = record { name = []; uuid = []; state = vm.state; vcpus = 0; memory_kb = 0 }

abbrev pub unnamed : Node → Node
unnamed (node i cs) = node (record i { id = none; description = none; creation_time = none }) nil

abbrev pub untagged : SharedFolder → SharedFolder
untagged f = record f { source_dir = none; mount_tag = none }

abbrev unsaid : Option Bytes → Option Bytes
unsaid none = none
unsaid (some text) = some []

abbrev pub unnamed_in : Option Node → Option Node
unnamed_in none = none
unnamed_in (some snap) = some (unnamed snap)

unfoldable pub without_texts : View → View
without_texts (machines vms) = machines (map nameless vms)
without_texts (detail vm_name snap state) = detail [] (unnamed_in snap) state
without_texts (create_form vm_name nvram_is_qcow2) = create_form [] nvram_is_qcow2
without_texts (folders vm_name fs active) = folders [] (map untagged fs) active
without_texts (add_form vm_name) = add_form []
without_texts (agent_help operation text os) = agent_help [] (unsaid text) os
without_texts (success message) = success none
without_texts (error message) = error none

blanks-append :
    (a a' b b' : List (List Part))
    → blanks a ≡ blanks a'
    → blanks b ≡ blanks b'
    → blanks (a ++ b) ≡ blanks (a' ++ b')
blanks-append a a' b b' h k =
    map-append (map blank) a b ∙ ap₂ ◌++◌ h k ∙ sym (map-append (map blank) a' b')

-- A choice of the same kind on both sides.
blanks-if :
    (t : Bool) (a a' b b' : List (List Part))
    → blanks a ≡ blanks a'
    → blanks b ≡ blanks b'
    → blanks (if t then a else b) ≡ blanks (if t then a' else b')
blanks-if true a a' b b' h k = h
blanks-if false a a' b b' h k = k

vm_buttons-blanks :
    (state : VmState) (name : Bytes) → blanks (vm_buttons state name) ≡ blanks (vm_buttons state [])
vm_buttons-blanks running name = refl
vm_buttons-blanks paused name = refl
vm_buttons-blanks shutoff name = refl
vm_buttons-blanks other name = refl

vm_item-blanks : (vm : VmInfo) → blanks (vm_item vm) ≡ blanks (vm_item (nameless vm))
vm_item-blanks vm = blanks-append (vm_head vm) (vm_head (nameless vm)) _ _ refl (
    blanks-append (vm_buttons vm.state vm.name) (vm_buttons vm.state []) _ _
      (vm_buttons-blanks vm.state vm.name) refl)

vm_items-blanks : (vms : List VmInfo) → blanks (vm_items vms) ≡ blanks (vm_items (map nameless vms))
unfolding vm_items
vm_items-blanks [] = refl
vm_items-blanks (vm ∷ vms) =
    blanks-append (vm_item vm) (vm_item (nameless vm)) (vm_items vms) (vm_items (map nameless vms))
      (vm_item-blanks vm) (vm_items-blanks vms)

delete_button-blanks :
    (active : Bool) (vm_name : Bytes) (id : Option Bytes)
    → blanks (delete_button active vm_name id) ≡ blanks (delete_button active [] none)
delete_button-blanks true vm_name id = refl
delete_button-blanks false vm_name id = refl

merge_button-blanks :
    (type : SnapType) (active : Bool) (vm_name : Bytes) (id : Option Bytes)
    → blanks (merge_button type active vm_name id) ≡ blanks (merge_button type active [] none)
merge_button-blanks internal active vm_name id = refl
merge_button-blanks external true vm_name id = refl
merge_button-blanks external false vm_name id = refl
merge_button-blanks current_state active vm_name id = refl

detail_parts-blanks :
    (vm_name : Bytes) (snap : Node) (state : VmState)
    → blanks (detail_parts vm_name snap state) ≡ blanks (detail_parts [] (unnamed snap) state)
detail_parts-blanks vm_name (node i cs) state =
    blanks-append (detail_head vm_name i.id i.description i.creation_time i.type)
      (detail_head [] none none none i.type) _ _ refl
      (blanks-append (current_mark i.is_current) (current_mark i.is_current) _ _ refl (
        blanks-append (revert_button vm_name i.id) (revert_button [] none) _ _ refl (
          blanks-append (delete_button (is_active state) vm_name i.id)
            (delete_button (is_active state) [] none) _ _
            (delete_button-blanks (is_active state) vm_name i.id)
            (blanks-append (merge_button i.type (is_active state) vm_name i.id)
              (merge_button i.type (is_active state) [] none) detail_tail detail_tail
              (merge_button-blanks i.type (is_active state) vm_name i.id) refl))))

mount_button-blanks :
    (vm_name : Bytes) (f : SharedFolder)
    → blanks (mount_button vm_name f) ≡ blanks (mount_button [] (untagged f))
mount_button-blanks vm_name f = blanks-if (is_int f.mounted 1) _ _ _ _ refl refl

unmount_button-blanks :
    (vm_name : Bytes) (f : SharedFolder)
    → blanks (unmount_button vm_name f) ≡ blanks (unmount_button [] (untagged f))
unmount_button-blanks vm_name f =
    blanks-if (is_int f.mounted 1) _ _ _ _ refl (blanks-if (is_int f.mounted 0) _ _ _ _ refl refl)

folder_buttons-blanks :
    (restart : Bool) (vm_name : Bytes) (f : SharedFolder)
    → blanks (folder_buttons restart vm_name f) ≡ blanks (folder_buttons restart [] (untagged f))
folder_buttons-blanks true vm_name f = refl
folder_buttons-blanks false vm_name f =
    blanks-append (mount_button vm_name f) (mount_button [] (untagged f)) _ _
      (mount_button-blanks vm_name f)
      (blanks-append (unmount_button vm_name f) (unmount_button [] (untagged f)) _ _
        (unmount_button-blanks vm_name f) refl)

folder_item-blanks :
    (vm_name : Bytes) (f : SharedFolder)
    → blanks (folder_item vm_name f) ≡ blanks (folder_item [] (untagged f))
folder_item-blanks vm_name f = blanks-append (folder_head f) (folder_head (untagged f)) _ _ refl (
    blanks-append (read_only_badge f.read_only) (read_only_badge f.read_only) _ _ refl (
      blanks-append (mounted_badge f.mounted) (mounted_badge f.mounted) _ _ refl (
        blanks-append (mount_hint f) (mount_hint (untagged f)) _ _
          (blanks-if (is_9p f.fs_type) _ _ _ _ refl refl)
          (blanks-append folder_middle folder_middle _ _ refl (
            blanks-append (folder_buttons f.needs_restart vm_name f)
              (folder_buttons f.needs_restart [] (untagged f)) folder_end folder_end
              (folder_buttons-blanks f.needs_restart vm_name f) refl)))))

folder_items-blanks :
    (vm_name : Bytes) (fs : List SharedFolder)
    → blanks (folder_items vm_name fs) ≡ blanks (folder_items [] (map untagged fs))
unfolding folder_items
folder_items-blanks vm_name [] = refl
folder_items-blanks vm_name (f ∷ fs) =
    blanks-append (folder_item vm_name f) (folder_item [] (untagged f)) (folder_items vm_name fs)
      (folder_items [] (map untagged fs)) (folder_item-blanks vm_name f)
      (folder_items-blanks vm_name fs)

folders_parts-blanks :
    (vm_name : Bytes) (fs : List SharedFolder) (active : ℤ)
    → blanks (folders_parts vm_name fs active) ≡ blanks (folders_parts [] (map untagged fs) active)
folders_parts-blanks vm_name fs active = blanks-append folders_head folders_head _ _ refl (
    blanks-append (automount_bar active vm_name) (automount_bar active []) _ _
      (blanks-if (is_int active 1) _ _ _ _ refl (blanks-if (is_int active 0) _ _ _ _ refl refl))
      (blanks-append folders_middle folders_middle _ _ refl (
        blanks-append (folder_items vm_name fs) (folder_items [] (map untagged fs)) folders_end
          folders_end (folder_items-blanks vm_name fs) refl)))

create_parts-blanks :
    (vm_name : Bytes) (nvram : ℤ)
    → blanks (create_parts vm_name nvram) ≡ blanks (create_parts [] nvram)
create_parts-blanks vm_name (pos n) = blanks-append create_head create_head _ _ refl (
    blanks-append (nvram_banner (pos n) vm_name) (nvram_banner (pos n) []) (create_rest vm_name)
      (create_rest []) (blanks-if (n == 0) _ _ _ _ refl refl) refl)
create_parts-blanks vm_name (negsuc n) = refl

detail_block-blanks :
    (text : Option Bytes) → blanks (detail_block text) ≡ blanks (detail_block (unsaid text))
detail_block-blanks none = refl
detail_block-blanks (some text) = refl

help_parts-blanks :
    (operation : Bytes) (text : Option Bytes) (os : GuestOs)
    → blanks (help_parts operation text os) ≡ blanks (help_parts [] (unsaid text) os)
help_parts-blanks operation none os = refl
help_parts-blanks operation (some text) os = refl

success-markup :
    (message : Option Bytes) → markup (render_success message) ≡ markup (render_success none)
unfolding render_success markup
success-markup message =
    rw
      (
        markup-append (html_escape message) (codes "</div>"),
        markup-html_escape message,
        markup-append (html_escape none) (codes "</div>"),
        markup-html_escape none,
      )
      refl

error-markup : (message : Option Bytes) → markup (render_error message) ≡ markup (render_error none)
unfolding render_error markup
error-markup message =
    rw
      (
        markup-append (html_escape message) (codes "</div>"),
        markup-html_escape message,
        markup-append (html_escape none) (codes "</div>"),
        markup-html_escape none,
      )
      refl

-- For the list of machines, the detail of a snapshot, the form of a new snapshot, the shared
-- folders, the form of a new folder, the help on the guest agent, and the messages of
-- `render_success` and `render_error`: the angle brackets and quotes of the page, in their order,
-- are those of the same page without the names and UUIDs of machines, their numbers of processors
-- and memory, the names, descriptions and times of snapshots, the folders' directories and tags,
-- the operation and the text of the error in the help, and the message. Whatever these hold, they
-- add no tag and leave no attribute.
pub markup-show : (v : View) → markup (show v) ≡ markup (show (without_texts v))
unfolding show without_texts render_vm_list render_snapshot_detail render_shared_folders
    render_create_snapshot_form render_add_shared_folder_form render_guest_agent_help
markup-show (machines []) = refl
markup-show (machines (vm ∷ vms)) = built-markup _ _ _ _ (vm_items-blanks (vm ∷ vms))
markup-show (detail vm_name none state) = refl
markup-show (detail vm_name (some snap) state) =
    built-markup _ _ _ _ (detail_parts-blanks vm_name snap state)
markup-show (create_form vm_name nvram) = built-markup _ _ _ _ (create_parts-blanks vm_name nvram)
markup-show (folders vm_name [] active) = refl
markup-show (folders vm_name (f ∷ fs) active) =
    built-markup _ _ _ _ (folders_parts-blanks vm_name (f ∷ fs) active)
markup-show (add_form vm_name) =
    built-markup 4096 4096 (add_folder_parts vm_name) (add_folder_parts []) refl
markup-show (agent_help operation text os) =
    built-markup _ _ _ _ (help_parts-blanks operation text os)
markup-show (success message) = success-markup message
markup-show (error message) = error-markup message
