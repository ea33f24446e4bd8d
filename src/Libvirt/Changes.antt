-- ===== src/Libvirt/Changes.antt =====
-- src/libvirt_backend.c: creating, editing, deleting, reverting and merging a snapshot.
use qemu_snapshot_web_manage.Prelude.{
  Bool, true, false, Option, none, some, ◌++◌, Bytes, codes, snprintf_s, strcmp_eq,
}
use qemu_snapshot_web_manage.Snapshot.{SnapType, external}
use qemu_snapshot_web_manage.Libvirt.Xml.{is_external, create_snapshot_xml, edited_xml}
use qemu_snapshot_web_manage.Libvirt.Session.{
  Libvirt, Session, CreateFlags, no_flags, disk_only_atomic, redefine, redefine_current, after,
  with_domain, called,
}

abbrev pub create_flags : SnapType → CreateFlags
create_flags external = disk_only_atomic
create_flags _ = no_flags

abbrev or_text : Option Bytes → Bytes → Bytes
or_text none default = default
or_text (some message) default = message

-- Whether the current snapshot has the name.
abbrev pub is_named : Option Bytes → Bytes → Bool
is_named none snap_name = false
is_named (some current) snap_name = strcmp_eq current snap_name

abbrev is_external_in : Option Bytes → Bool
is_external_in none = false
is_external_in (some xml) = is_external xml

abbrev pub edit_flags : Bool → CreateFlags
edit_flags true = redefine_current
edit_flags false = redefine

module _ {W : Type 0} where
  abbrev pub failing : Bytes → Session W → Bool × Session W
  failing message s = (false, record s { last_error = snprintf_s 1024 message })

  -- The message of libvirt, or a text where there is none.
  abbrev pub finished : Libvirt W → Bytes → Bool → Session W → Bool × Session W
  finished lv default false s = failing (or_text (lv.last_message s.libvirt) default) s
  finished lv default true s = (true, s)

  abbrev pub current_of : Libvirt W → Bytes → Session W → Option Bytes × Session W
  current_of lv vm_name s =
      let (current, w) = lv.snapshot_current vm_name s.libvirt in (current, after s w)

  abbrev pub reset_without : Libvirt W → Option Bytes → Session W → Session W
  reset_without lv none s = after s (lv.reset_last_error s.libvirt)
  reset_without lv (some current) s = s

  abbrev pub create_with :
      Libvirt W
      → Bytes
      → Bytes
      → Option Bytes
      → SnapType
      → Option Bytes
      → Session W
      → Bool × Session W
  create_with lv vm_name snap_name description type current s =
      let xml = create_snapshot_xml current snap_name description type in
      let (created, s') = called (lv.snapshot_create_xml vm_name xml (create_flags type)) s in
      finished lv (codes "Unknown error") created s'

  abbrev pub create_on :
      Libvirt W → Bytes → Bytes → Option Bytes → SnapType → Session W → Bool × Session W
  create_on lv vm_name snap_name description type s =
      let (current, s') = current_of lv vm_name s in
      create_with lv vm_name snap_name description type current (reset_without lv current s')

  unfoldable pub lv_create_snapshot :
      Libvirt W → Bytes → Bytes → Option Bytes → SnapType → Session W → Bool × Session W
  lv_create_snapshot lv vm_name snap_name description type =
      with_domain lv vm_name false (create_on lv vm_name snap_name description type)

  abbrev pub redefined : Libvirt W → Bytes → Bool → Option Bytes → Session W → Bool × Session W
  redefined lv vm_name is_current none s = failing (codes "Failed to build modified snapshot XML") s
  redefined lv vm_name is_current (some new_xml) s =
      let (done, s') = called (lv.snapshot_create_xml vm_name new_xml (edit_flags is_current)) s in
      finished lv (codes "REDEFINE failed") done s'

  abbrev pub edit_xml :
      Libvirt W → Bytes → Bytes → Bool → Option Bytes → Session W → Bool × Session W
  edit_xml lv vm_name new is_current none s = failing (codes "Failed to get snapshot XML") s
  edit_xml lv vm_name new is_current (some xml) s =
      redefined lv vm_name is_current (edited_xml xml new) s

  abbrev pub edit_found : Libvirt W → Bytes → Bytes → Bytes → Bool → Session W → Bool × Session W
  edit_found lv vm_name snap_name new false s =
      failing (codes "Snapshot '" ++ (snap_name ++ codes "' not found")) s
  edit_found lv vm_name snap_name new true s =
      let (current, s') = current_of lv vm_name s in
      let (xml, w) = lv.snapshot_xml_desc vm_name snap_name true s'.libvirt in
      edit_xml lv vm_name new (is_named current snap_name) xml (after s' w)

  abbrev pub edit_on : Libvirt W → Bytes → Bytes → Bytes → Session W → Bool × Session W
  edit_on lv vm_name snap_name new s =
      let (found, s') = called (lv.snapshot_lookup vm_name snap_name) s in
      edit_found lv vm_name snap_name new found s'

  unfoldable pub lv_edit_snapshot_description :
      Libvirt W → Bytes → Bytes → Bytes → Session W → Bool × Session W
  lv_edit_snapshot_description lv vm_name snap_name new =
      with_domain lv vm_name false (edit_on lv vm_name snap_name new)

  -- `virDomainSnapshotLookupByName`, and what is done where the snapshot is there.
  abbrev pub if_there : (Session W → Bool × Session W) → Bool → Session W → Bool × Session W
  if_there act false s = (false, s)
  if_there act true s = act s

  abbrev pub on_snapshot :
      Libvirt W → Bytes → Bytes → (Session W → Bool × Session W) → Session W → Bool × Session W
  on_snapshot lv vm_name snap_name act s =
      let (found, s') = called (lv.snapshot_lookup vm_name snap_name) s in if_there act found s'

  -- Of an external snapshot only the metadata is deleted.
  abbrev pub delete_on : Libvirt W → Bytes → Bytes → Session W → Bool × Session W
  delete_on lv vm_name snap_name s =
      let (xml, w) = lv.snapshot_xml_desc vm_name snap_name false s.libvirt in
      called (lv.snapshot_delete vm_name snap_name (is_external_in xml)) (after s w)

  unfoldable pub lv_delete_snapshot : Libvirt W → Bytes → Bytes → Session W → Bool × Session W
  lv_delete_snapshot lv vm_name snap_name =
      with_domain lv vm_name false
        (on_snapshot lv vm_name snap_name (delete_on lv vm_name snap_name))

  unfoldable pub lv_revert_snapshot : Libvirt W → Bytes → Bytes → Session W → Bool × Session W
  lv_revert_snapshot lv vm_name snap_name =
      with_domain lv vm_name false
        (on_snapshot lv vm_name snap_name (called (lv.snapshot_revert vm_name snap_name)))

  unfoldable pub lv_merge_snapshot : Libvirt W → Bytes → Bytes → Session W → Bool × Session W
  lv_merge_snapshot lv vm_name snap_name =
      with_domain lv vm_name false
        (on_snapshot lv vm_name snap_name (called (lv.block_commit vm_name (codes "vda"))))
