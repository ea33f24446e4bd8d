-- ===== src/Libvirt/Nvram.antt =====
-- src/libvirt_backend.c: the format of the NVRAM of a machine, and its conversion to qcow2.
use qemu_snapshot_web_manage.Prelude.{
  ℕ, ◌+◌, ◌-◌, Bool, true, false, Option, none, some, [], ◌∷◌, ◌++◌, ◌==◌, ltb, if◌then◌else◌,
  Bytes, codes, length, take, drop, snprintf_s, strcmp_eq, strstr, strchr,
}
use qemu_snapshot_web_manage.Prelude.Int.{ℤ, pos, negsuc}
use qemu_snapshot_web_manage.Server.{strrchr, show_long}
use qemu_snapshot_web_manage.Libvirt.Xml.{extract_xml_content_ext}
use qemu_snapshot_web_manage.Libvirt.Disks.{extract_xml_attr}
use qemu_snapshot_web_manage.Libvirt.Session.{
  Libvirt, Session, vir_domain_shutoff, after, with_domain, called, conn_lock, conn_unlock,
}

abbrev path_max : ℕ
path_max = 4096

abbrev is_qcow2_format : Option Bytes → Bool
is_qcow2_format none = false
is_qcow2_format (some fmt) = strcmp_eq fmt (codes "qcow2")

abbrev pub format_of : Bytes → Bool
format_of xml = is_qcow2_format (extract_xml_attr xml (codes "nvram") (codes "format"))

abbrev format_at : Bytes → Option Bytes → ℤ
format_at xml none = negsuc 0
format_at xml (some []) = negsuc 0
format_at xml (some (c ∷ path)) = if format_of xml then pos 1 else pos 0

-- 1 for qcow2, 0 for another format, -1 without NVRAM.
unfoldable pub nvram_format : Option Bytes → ℤ
nvram_format none = negsuc 0
nvram_format (some xml) = format_at xml (extract_xml_content_ext xml (codes "nvram"))

abbrev stem : Bytes → Option Bytes → Bytes
stem path none = path
stem path (some dot) = take (length path - length dot) path

-- The text behind the last dot gives way to `.qcow2`.
unfoldable pub qcow2_path_of : Bytes → Bytes
qcow2_path_of path = snprintf_s path_max (stem path (strrchr path b'.') ++ codes ".qcow2")

unfoldable pub convert_command : Bytes → Bytes → Bytes
convert_command nvram_path qcow2_path = snprintf_s (8192 + 128) (
    codes "qemu-img convert -f raw -O qcow2 '"
    ++ (nvram_path ++ (codes "' '" ++ (qcow2_path ++ codes "'"))))

-- The text with the part between two of its ends replaced.
abbrev replaced_at : Bytes → Bytes → ℕ → Bytes → Bytes
replaced_at xml start len new = take (length xml - length start) xml ++ (new ++ drop len start)

-- `format='raw'`, or else with double quotes, where it stands before the end of the tag.
abbrev format_replaced : Bytes → Bytes → Option Bytes → Option Bytes → Bytes
format_replaced xml tag_end (some raw) raw2 =
    if ltb (length tag_end) (length raw)
    then replaced_at xml raw 12 (codes "format='qcow2'")
    else xml
format_replaced xml tag_end none (some raw2) =
    if ltb (length tag_end) (length raw2)
    then replaced_at xml raw2 12 (codes "format=\"qcow2\"")
    else xml
format_replaced xml tag_end none none = xml

abbrev in_tag : Bytes → Bytes → Option Bytes → Bytes
in_tag xml tag none = xml
in_tag xml tag (some tag_end) =
    format_replaced xml tag_end (strstr tag (codes "format='raw'"))
      (strstr tag (codes "format=\"raw\""))

unfoldable pub with_format : Bytes → Bytes
with_format xml = elim (strstr xml (codes "<nvram ")) [
  | none ↦ xml
  | some tag ↦ in_tag xml tag (strchr tag b'>')
]

-- The XML with the new path and format; `none` where the path is not found in it.
unfoldable pub converted_xml : Bytes → Bytes → Bytes → Option Bytes
converted_xml xml nvram_path qcow2_path = elim (strstr xml nvram_path) [
  | none ↦ none
  | some start ↦ some (with_format (replaced_at xml start (length nvram_path) qcow2_path))
]

abbrev pub is_off : Option ℕ → Bool
is_off none = false
is_off (some state) = state == vir_domain_shutoff

abbrev message_or_unknown : Option Bytes → Bytes
message_or_unknown none = codes "unknown"
message_or_unknown (some message) = message

module _ {W : Type 0} where
  abbrev pub failing : Bytes → Session W → ℤ × Session W
  failing message s = (negsuc 0, record s { last_error = snprintf_s 1024 message })

  abbrev pub check_on : Libvirt W → Bytes → Session W → ℤ × Session W
  check_on lv vm_name s =
      let (xml, w) = lv.inactive_xml vm_name s.libvirt in (nvram_format xml, after s w)

  unfoldable pub lv_check_nvram_format : Libvirt W → Bytes → Session W → ℤ × Session W
  lv_check_nvram_format lv vm_name = with_domain lv vm_name (negsuc 0) (check_on lv vm_name)

  abbrev pub defined : Libvirt W → Bytes → Bool → Session W → ℤ × Session W
  defined lv qcow2_path false s =
      failing
        (codes "Failed to redefine domain: " ++ message_or_unknown (lv.last_message s.libvirt))
        (after s (lv.unlink qcow2_path s.libvirt))
  defined lv qcow2_path true s = (pos 0, s)

  -- The lock is held around the new definition alone.
  abbrev pub redefine_nvram : Libvirt W → Bytes → Option Bytes → Session W → ℤ × Session W
  redefine_nvram lv qcow2_path none s =
      failing (codes "Could not find NVRAM path in XML for replacement") s
  redefine_nvram lv qcow2_path (some new_xml) s =
      let (done, s') = called (lv.define_xml s.connected new_xml) (conn_lock s) in
      defined lv qcow2_path done (conn_unlock s')

  abbrev pub ran : Libvirt W → Bytes → Bytes → Bytes → Option ℕ → Session W → ℤ × Session W
  ran lv xml nvram_path qcow2_path (some status) s =
      failing (codes "qemu-img convert failed (exit " ++ (show_long (pos status) ++ codes ")")) s
  ran lv xml nvram_path qcow2_path none s =
      redefine_nvram lv qcow2_path (converted_xml xml nvram_path qcow2_path) s

  abbrev pub convert_path : Libvirt W → Bytes → Bytes → Session W → ℤ × Session W
  convert_path lv xml nvram_path s =
      let qcow2_path = qcow2_path_of nvram_path in
      let (outcome, w) = lv.system (convert_command nvram_path qcow2_path) s.libvirt in
      ran lv xml nvram_path qcow2_path outcome (after s w)

  abbrev pub convert_found : Libvirt W → Bytes → Option Bytes → Session W → ℤ × Session W
  convert_found lv xml none s =
      failing (codes "No NVRAM path found in domain XML (not a UEFI VM?)") s
  convert_found lv xml (some []) s =
      failing (codes "No NVRAM path found in domain XML (not a UEFI VM?)") s
  convert_found lv xml (some (c ∷ path)) s =
      if format_of xml then (pos 1, s) else convert_path lv xml (c ∷ path) s

  abbrev pub convert_xml : Libvirt W → Option Bytes → Session W → ℤ × Session W
  convert_xml lv none s = failing (codes "Failed to get domain XML") s
  convert_xml lv (some xml) s = convert_found lv xml (extract_xml_content_ext xml (codes "nvram")) s

  abbrev pub convert_off : Libvirt W → Bytes → Bool → Session W → ℤ × Session W
  convert_off lv vm_name false s = failing (codes "VM must be stopped before converting NVRAM") s
  convert_off lv vm_name true s =
      let (xml, w) = lv.inactive_xml vm_name s.libvirt in convert_xml lv xml (after s w)

  abbrev pub convert_on : Libvirt W → Bytes → Session W → ℤ × Session W
  convert_on lv vm_name s =
      let (state, w) = lv.domain_info vm_name s.libvirt in
      convert_off lv vm_name (is_off state) (after s w)

  unfoldable pub lv_convert_nvram : Libvirt W → Bytes → Session W → ℤ × Session W
  lv_convert_nvram lv vm_name = with_domain lv vm_name (negsuc 0) (convert_on lv vm_name)
