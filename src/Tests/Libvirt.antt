-- ===== src/Tests/Libvirt.antt =====
-- The XML of src/libvirt_backend.c for concrete snapshots.
use qemu_snapshot_web_manage.Prelude.{
  ℕ, zero, suc, ◌-◌, ◌<◌, List, map, All, get_elem?, strchr, ◌≡◌, refl, sym, ◌∙◌, Option, [], ◌∷◌,
  Bytes, is_prefix, arith, true, false, some, none, ◌++◌, codes, strstr, strcmp_eq,
}
use qemu_snapshot_web_manage.Prelude.Int.{pos, negsuc}
use qemu_snapshot_web_manage.Snapshot.{internal, external, Node, snapshot_node_new}
use qemu_snapshot_web_manage.Libvirt.Xml.{
  extract_xml_content_ext, content_from, content_with_attributes, xml_escape_text, escape_text,
  xml_byte, parent_xml, xml_tail, extract_xml_content, extract_snapshot_parent_name, is_external,
  snapshot_xml, create_snapshot_xml, edited_xml, escaped_parent,
}
use qemu_snapshot_web_manage.Libvirt.Xml.Extract.{create_snapshot_xml-reads_back}
use qemu_snapshot_web_manage.Libvirt.Xml.Edit.{edited_xml-snapshot_xml}
use qemu_snapshot_web_manage.Libvirt.Disks.{
  get_domain_disk_paths, disk_loop, next_disk, earlier, disk_source, extract_xml_attr, nvram_source,
}
use qemu_snapshot_web_manage.Libvirt.Orphans.{
  Domain, qcow2_snapshot_names, read_names, fgets, tag_of, size_loop, trim_spaces, is_known,
  clean_names, clean_disk, clean_disks, run_commands, delete_command, lv_scan_orphan_snapshots,
  lv_cleanup_orphan_snapshots,
}
use qemu_snapshot_web_manage.Libvirt.Orphans.Scan.{
  deletes, shows, ArePlain, IsOrphan, lv_scan_orphan_snapshots-deletes,
  lv_cleanup_orphan_snapshots-IsOrphan,
}
use qemu_snapshot_web_manage.Server.{strrchr}
use qemu_snapshot_web_manage.Libvirt.Session.{Libvirt, Session, lv_lookup_domain_locked}
use qemu_snapshot_web_manage.Libvirt.Nvram.{qcow2_path_of, with_format, converted_xml}
use qemu_snapshot_web_manage.Libvirt.Lock.{
  Operation, create_snapshot, convert_nvram, delete_snapshot, disconnect, vm_start, IsFree, perform,
}
use qemu_snapshot_web_manage.Libvirt.Errors.{perform-last_error}
use qemu_snapshot_web_manage.Libvirt.Folders.{
  cleared, folders_in, filesystem_xml, blocks, read_folders, read_folder,
}
use qemu_snapshot_web_manage.Libvirt.Folders.Calls.{Devices, lv_add_shared_folder}
use qemu_snapshot_web_manage.Libvirt.Folders.Lock.{
  Request, operation, list_shared_folders, enable_shared_memory, add_shared_folder,
  remove_shared_folder, list_snapshots, scan_orphans, cleanup_orphans, answer_all,
  answer_all-IsFree,
}
use qemu_snapshot_web_manage.Libvirt.Listing.{
  Listed, parent_index, find_parent, lv_list_snapshots, link_from, attach, attach_rootless,
}
use qemu_snapshot_web_manage.Libvirt.Listing.Tree.{tree_at, tree_of}
use qemu_snapshot_web_manage.Libvirt.Listing.Tree.Trail.{tree_of-fuel}
use mathlib.Core.List.{Perm}
use qemu_snapshot_web_manage.Libvirt.Listing.Tree.Whole.{tree_ids, tree_of-perm}
use qemu_snapshot_web_manage.Libvirt.Listing.Single.{IsTree, lv_list_snapshots-IsTree}
use mathlib.Core.Option.{some-injective}

create_test :
    create_snapshot_xml (some (codes "a&b")) (codes "s") none internal
    ≡ codes
        "<domainsnapshot><name>s</name><description></description><parent><name>a&amp;b</name></parent></domainsnapshot>"
unfolding create_snapshot_xml strcmp_eq snapshot_xml escape_text xml_byte xml_escape_text parent_xml
    xml_tail
create_test = refl

external_test : is_external (create_snapshot_xml none (codes "s") none external) ≡ true
unfolding is_external create_snapshot_xml strstr snapshot_xml escape_text xml_byte xml_escape_text
    parent_xml xml_tail
external_test = refl

internal_test : is_external (create_snapshot_xml none (codes "s") none internal) ≡ false
unfolding is_external create_snapshot_xml strstr snapshot_xml escape_text xml_byte xml_escape_text
    parent_xml xml_tail
internal_test = refl

create_snapshot_xml-reads_back_example :
    (extract_xml_content
        (create_snapshot_xml (some (codes "a")) (codes "s") (some (codes "<b>")) external)
        (codes "description")
      ≡ some (xml_escape_text (some (codes "<b>"))))
    × (extract_snapshot_parent_name
          (some (create_snapshot_xml (some (codes "a")) (codes "s") (some (codes "<b>")) external))
        ≡ escaped_parent (codes "s") (some (codes "a")))
create_snapshot_xml-reads_back_example =
    create_snapshot_xml-reads_back (some (codes "a")) (codes "s") (some (codes "<b>")) external

edited_xml-snapshot_xml_example :
    edited_xml (snapshot_xml (codes "s") (codes "old") (some (codes "a")) internal) (codes "new")
    ≡ some (snapshot_xml (codes "s") (codes "new") (some (codes "a")) internal)
edited_xml-snapshot_xml_example =
    edited_xml-snapshot_xml (codes "s") (codes "old") (codes "new") (some (codes "a")) internal
      (ground arith) (ground arith)

abbrev domain_xml : Bytes
domain_xml =
    codes "<disk type='file' device='disk'><driver type='qcow2'/><source file='/a'/></disk>"

paths_test : get_domain_disk_paths (some domain_xml) ≡ codes "/a" ∷ []
unfolding get_domain_disk_paths disk_loop next_disk earlier disk_source extract_xml_attr
    nvram_source extract_xml_content_ext extract_xml_content content_from content_with_attributes
    strstr strchr strcmp_eq
paths_test = refl

-- The output of `qemu-img snapshot -l`, with a known snapshot and an orphan.
abbrev qemu_img : Bytes → Option Bytes
qemu_img path = some (
    codes "ID TAG VM_SIZE\n"
    ++ (codes "1 first snap 0 B 2026-01-01\n" ++ codes "2 lost 12.5 MiB 2026-01-02\n"))

names_test :
    qcow2_snapshot_names qemu_img (codes "/a") ≡ some (codes "first snap" ∷ codes "lost" ∷ [])
unfolding qcow2_snapshot_names read_names fgets tag_of size_loop trim_spaces is_prefix
names_test = refl

abbrev dom : Domain
dom = record {
  is_shutoff = true;
  listed = some (some (codes "first snap") ∷ []);
  xml = some domain_xml;
}

any_disk :
    (path : Bytes)
    → qcow2_snapshot_names qemu_img path ≡ some (codes "first snap" ∷ codes "lost" ∷ [])
unfolding qcow2_snapshot_names read_names fgets tag_of size_loop trim_spaces is_prefix
any_disk path = refl

qemu_img-ArePlain : ArePlain qemu_img
qemu_img-ArePlain path = rw (any_disk path) (ground arith)

-- A snapshot and its parent, the child listed first.
abbrev base : Listed
base = record { name = codes "base"; xml = none }

abbrev top_snapshot : Listed
top_snapshot = record {
  name = codes "top";
  xml = some (codes "<parent><name>base</name></parent>");
}

abbrev pair : List Listed
pair = top_snapshot ∷ base ∷ []

abbrev rank : ℕ → ℕ
rank i = 1 - i

top_parent : parent_index pair 0 top_snapshot ≡ some 1
unfolding parent_index find_parent extract_snapshot_parent_name extract_xml_content_ext
    extract_xml_content content_from strstr strcmp_eq is_prefix
top_parent = refl

base_parent : parent_index pair 1 base ≡ none
unfolding parent_index extract_snapshot_parent_name
base_parent = refl

pair_falls :
    (i j : ℕ) (s : Listed)
    → get_elem? pair i ≡ some s
    → parent_index pair i s ≡ some j
    → rank j < rank i
pair_falls zero j s e p =
    let first : top_snapshot ≡ s = some-injective top_snapshot s e in
    let found : some 1 ≡ some j = sym top_parent ∙ (rw (← first) at p) in
    let one : 1 ≡ j = some-injective 1 j found in omega (arith, one)
pair_falls (suc zero) j s e p =
    let second : base ≡ s = some-injective base s e in
    let found : none ≡ some j = sym base_parent ∙ (rw (← second) at p) in cc
pair_falls (suc (suc i)) j s e p = cc

tree_of-perm_example :
    Perm
      (tree_ids (tree_of (λ time. time) none pair))
      (some (codes "top") ∷ some (codes "base") ∷ [])
tree_of-perm_example = tree_of-perm (λ time. time) none pair rank pair_falls

lv_list_snapshots-IsTree_example : IsTree 2 (lv_list_snapshots pair)
lv_list_snapshots-IsTree_example = lv_list_snapshots-IsTree pair

-- A libvirt that knows no machine, and refuses all calls.
abbrev no_machine : Libvirt Unit
no_machine = record {
  connect = λ uri w. (true, w);
  close = λ w. w;
  lookup = λ name w. (false, w);
  all_domains = λ connected w. (some [], w);
  create = λ name w. (false, w);
  shutdown = λ name w. (false, w);
  destroy = λ name w. (false, w);
  suspend = λ name w. (false, w);
  resume = λ name w. (false, w);
  domain_info = λ name w. (none, w);
  inactive_xml = λ name w. (none, w);
  define_xml = λ connected xml w. (false, w);
  snapshot_current = λ name w. (none, w);
  snapshot_lookup = λ name snap w. (false, w);
  snapshot_xml_desc = λ name snap secure w. (none, w);
  snapshot_create_xml = λ name xml flags w. (false, w);
  snapshot_delete = λ name snap metadata_only w. (false, w);
  snapshot_revert = λ name snap w. (false, w);
  block_commit = λ name disk w. (false, w);
  reset_last_error = λ w. w;
  last_message = λ w. none;
  system = λ command w. (some 1, w);
  unlink = λ path w. w;
}

-- The same with one machine that is off and has a raw NVRAM.
abbrev pub one_machine : Libvirt Unit
one_machine = record no_machine {
  lookup = λ name w. (true, w);
  domain_info = λ name w. (some 5, w);
  inactive_xml = λ name w. (some (codes "<nvram format='raw'>/n/a.fd</nvram>"), w);
}

abbrev pub session : Session Unit
session = record {
  connected = true;
  locked = false;
  stuck = false;
  last_error = codes "earlier";
  libvirt = tt;
}

session-IsFree : IsFree session
session-IsFree = record { unlocked = refl; running = refl }

abbrev operations : List Operation
operations =
    create_snapshot (codes "web") (codes "s") none internal
    ∷ convert_nvram (codes "web")
    ∷ delete_snapshot (codes "web") (codes "s")
    ∷ disconnect
    ∷ vm_start (codes "web")
    ∷ []

-- A machine that runs, whose guest does not answer.
abbrev running_devices : Devices Unit
running_devices = record {
  state = λ name w. (1, w);
  list_all_snapshots = λ name w. (some (codes "base" ∷ codes "top" ∷ []), w);
  orphan_domain = λ name w. (dom, w);
  live_xml = λ name w. (some (codes "<access mode='shared'/>"), w);
  attach_device = λ name xml live w. (pos 0, w);
  detach_device = λ name xml live w. (pos 0, w);
  agent = record {
    command = λ name text timeout w. (none, w);
    sleep = λ seconds w. w;
    json_loads = λ text. none;
  };
}

abbrev requests : List Request
requests =
    map operation operations
    ++ (add_shared_folder (codes "web") (codes "/srv") (codes "data") true (codes "9p")
        ∷ enable_shared_memory (codes "web")
        ∷ list_shared_folders (λ n. cleared) (codes "web")
        ∷ remove_shared_folder (codes "web") (codes "data")
        ∷ list_snapshots (λ time. time) (codes "web")
        ∷ scan_orphans qemu_img (codes "web")
        ∷ cleanup_orphans qemu_img (codes "web")
        ∷ [])

answer_all-IsFree_example : IsFree (answer_all one_machine running_devices requests session)
answer_all-IsFree_example =
    answer_all-IsFree one_machine running_devices requests session session-IsFree

add_shared_folder_test :
    lv_add_shared_folder one_machine running_devices
      (codes "web")
      (codes "/srv")
      (codes "data")
      true
      (codes "virtiofs")
      session
    ≡ (
      negsuc 1,
      record session {
        last_error = codes "VirtioFS requires shared memory to be enabled on this VM";
      },
    )
unfolding lv_add_shared_folder lv_lookup_domain_locked strcmp_eq strstr
add_shared_folder_test = refl

folders_in_test :
    folders_in (λ n. cleared) (filesystem_xml (codes "/srv") (codes "data") true (codes "9p")) ≡ (
      record cleared {
        source_dir = some (codes "/srv");
        mount_tag = some (codes "data");
        fs_type = some (codes "9p");
        read_only = true;
      }
      ∷ [])
unfolding folders_in filesystem_xml blocks read_folders read_folder extract_xml_attr strstr
    strcmp_eq strchr
folders_in_test = refl

perform-last_error_example :
    (perform no_machine (vm_start (codes "web")) session).last_error ≡ codes "earlier"
perform-last_error_example = perform-last_error no_machine (vm_start (codes "web")) session tt

converted_xml_test :
    converted_xml
      (codes "<nvram format='raw'>/n/a.fd</nvram>")
      (codes "/n/a.fd")
      (qcow2_path_of (codes "/n/a.fd"))
    ≡ some (codes "<nvram format='qcow2'>/n/a.qcow2</nvram>")
unfolding converted_xml with_format qcow2_path_of strstr strchr is_prefix strrchr
converted_xml_test = refl

-- A dot in the name of a directory: the file would be outside of it.
qcow2_path_test : qcow2_path_of (codes "/a.d/nvram") ≡ codes "/a.qcow2"
unfolding qcow2_path_of strrchr
qcow2_path_test = refl

pair_root : (lv_list_snapshots pair).root ≡ some 1
unfolding lv_list_snapshots link_from attach parent_index extract_snapshot_parent_name
    attach_rootless extract_xml_content_ext extract_xml_content content_from strstr find_parent
    strcmp_eq is_prefix
pair_root = refl

abbrev bare_node : ℕ → Node
bare_node i = snapshot_node_new none none none internal false

tree_of-fuel_example :
    tree_at bare_node (lv_list_snapshots pair).kids 9 1
    ≡ tree_at bare_node (lv_list_snapshots pair).kids 2 1
tree_of-fuel_example = tree_of-fuel pair bare_node 1 9 pair_root (omega arith)

lv_scan_orphan_snapshots-deletes_example :
    shows
      (lv_scan_orphan_snapshots one_machine (λ name w. (dom, w)) qemu_img (codes "web") session).0
      (codes "lost")
    ≡ deletes
        (lv_cleanup_orphan_snapshots one_machine
          (λ name w. (dom, w))
          qemu_img
          (codes "web")
          session).0.0
        (codes "lost")
lv_scan_orphan_snapshots-deletes_example =
    lv_scan_orphan_snapshots-deletes one_machine (λ name w. (dom, w)) qemu_img qemu_img-ArePlain
      (codes "web") (codes "lost") session

lv_cleanup_orphan_snapshots-IsOrphan_example :
    All
      (IsOrphan (some (codes "first snap") ∷ []))
      (lv_cleanup_orphan_snapshots one_machine
        (λ name w. (dom, w))
        qemu_img
        (codes "web")
        session).0.0
lv_cleanup_orphan_snapshots-IsOrphan_example =
    lv_cleanup_orphan_snapshots-IsOrphan one_machine (λ name w. (dom, w)) qemu_img qemu_img-ArePlain
      (codes "web") session

-- The one disk of the machine is /a.
cleanup_test :
    (lv_cleanup_orphan_snapshots one_machine
      (λ name w. (dom, w))
      qemu_img
      (codes "web")
      session).0.0
    ≡ codes "qemu-img snapshot -d 'lost' '/a' 2>&1" ∷ []
unfolding lv_cleanup_orphan_snapshots lv_lookup_domain_locked clean_names clean_disk clean_disks
    run_commands delete_command is_known get_domain_disk_paths qcow2_snapshot_names read_names fgets
    tag_of size_loop trim_spaces is_prefix disk_loop next_disk earlier disk_source extract_xml_attr
    nvram_source extract_xml_content_ext extract_xml_content content_from content_with_attributes
    strstr strchr strcmp_eq
cleanup_test = refl
