-- ===== src/Tests/Routes.antt =====
-- The routes of src/routes.c on a concrete backend with two machines.
use mathlib.Core.List.{Perm}
use qemu_snapshot_web_manage.Prelude.{
  ◌≡◌, ◌==◌, ◌&&◌, if◌then◌else◌, strcmp_eq, refl, inr, arith, Bool, true, false, some, none, List,
  [], ◌∷◌, ◌++◌, Bytes, codes, before, is_prefix,
}
use qemu_snapshot_web_manage.Prelude.Int.{pos}
use qemu_snapshot_web_manage.VmState.{VmState, running, shutoff}
use qemu_snapshot_web_manage.Util.Url.{url_decode}
use qemu_snapshot_web_manage.Backend.{VmInfo, VmBackend, LvCalls, Call}
use qemu_snapshot_web_manage.DirtyState.Disk.{Outcomes}
use qemu_snapshot_web_manage.DirtyState.Lookup.{flag_of, CanTrack}
use qemu_snapshot_web_manage.Routes.{Host, Site, state_of, state_in}
use qemu_snapshot_web_manage.Routes.Form.{form_value}
use qemu_snapshot_web_manage.Routes.Form.Fields.{field_value, form_value-field_value}
use qemu_snapshot_web_manage.Routes.Body.{request_context_append, bytes_of}
use qemu_snapshot_web_manage.Routes.Body.Bounds.{IsHeld, request_context_append-IsHeld}
use qemu_snapshot_web_manage.Routes.Snapshots.{handle_create_snapshot}
use qemu_snapshot_web_manage.Routes.Changes.{handle_revert_snapshot}
use qemu_snapshot_web_manage.Routes.Changes.Clean.{
  handle_create_snapshot-IsMarkedOnSuccess, handle_revert_snapshot-IsMarkedOnSuccess,
}
use qemu_snapshot_web_manage.Config.Dropins.{strcmp_le}
use qemu_snapshot_web_manage.Routes.Browse.{
  Directories, must_swap, select, sort_rounds, sort_entries,
}
use qemu_snapshot_web_manage.Routes.Browse.Sorted.{IsSorted, sort_entries-IsSorted}
use qemu_snapshot_web_manage.Routes.Dispatch.{Route, revert_snapshot, route_of, Request}
use qemu_snapshot_web_manage.Routes.Dispatch.Paths.{method_of, url_of, route_of-url}
use qemu_snapshot_web_manage.Routes.Dispatch.Upload.{
  IsAnswered, body_in, has_body, calls, route_dispatch-IsAnswered,
}

-- The state of the hypervisor is the list of the calls that were made.
abbrev Log : Type 0
Log = List Bytes

abbrev vm : Bytes → VmState → VmInfo
vm name st = record { name = name; uuid = []; state = st; vcpus = 1; memory_kb = 1024 }

abbrev vms : List VmInfo
vms = vm (codes "web") running ∷ vm (codes "db") shutoff ∷ []

abbrev noted : Bytes → Call Log Bool
noted what log = (true, what ∷ log)

abbrev libvirt : VmBackend Log
libvirt = record {
  list_vms = λ log. (some vms, codes "list" ∷ log);
  vm_start = noted;
  vm_stop = noted;
  vm_force_stop = none;
  vm_pause = noted;
  vm_resume = none;
  list_snapshots = λ name log. (none, log);
  create_snapshot = λ name snap description type. noted snap;
  delete_snapshot = λ name snap merge. noted snap;
  revert_snapshot = λ name snap. noted snap;
  merge_snapshot = λ name snap. noted snap;
  list_shared_folders = λ name log. (none, log);
  add_shared_folder = λ name source tag read_only fs log. (pos 0, log);
  remove_shared_folder = λ name. noted;
  mount_shared_folder = none;
  unmount_shared_folder = none;
  check_mount_status = none;
  check_automount_status = none;
  setup_automount = none;
  detect_guest_os = none;
}

abbrev lv : LvCalls Log
lv = record {
  get_last_error = λ log. [];
  convert_nvram = λ name log. (pos 0, log);
  check_nvram_format = λ name log. (pos 1, log);
  edit_snapshot_description = λ name snap description. noted snap;
  enable_shared_memory = noted;
  scan_orphan_snapshots = λ name log. (none, log);
  cleanup_orphan_snapshots = λ name log. (none, log);
}

abbrev outcomes : Outcomes
outcomes = record {
  mkdir = λ dir. true;
  builds = true;
  opens = true;
  writes = true;
  closes = true;
  renames = true;
}

abbrev host : Host Log
host = record {
  backend = some libvirt;
  lv = lv;
  dumps = λ j. [];
  is_utf8 = λ text. true;
  outcomes = outcomes;
}

abbrev site : Site Log
site = record {
  hypervisor = [];
  dirty = record { table = []; path = codes "/d" };
  disk = record { file = none; tmp = none };
}

db-CanTrack : CanTrack (codes "db") site.dirty.table
db-CanTrack = (ground arith, inr (ground arith))

abbrev form : Bytes
form = codes "description=name%3d&name=a+b"

form_value-field_value_example :
    form_value (some form) (codes "name") ≡ url_decode (field_value b'&' form (codes "name"))
form_value-field_value_example = form_value-field_value b'n' (codes "ame") form (ground arith)

field_value_test : field_value b'&' form (codes "name") ≡ some (codes "a+b")
unfolding field_value is_prefix before
field_value_test = refl

request_context_append-IsHeld_example :
    IsHeld
      (request_context_append (record { body = some (codes "ab"); body_alloc = 3 }) (codes "c"))
    × (bytes_of
          (request_context_append
            (record { body = some (codes "ab"); body_alloc = 3 })
            (codes "c")).body
        ≡ codes "ab" ++ codes "c")
request_context_append-IsHeld_example =
    request_context_append-IsHeld (record { body = some (codes "ab"); body_alloc = 3 }) (codes "c")
      (ground arith)

web_is_running : state_of (codes "web") (some vms) ≡ some running
unfolding state_in strcmp_eq
web_is_running = refl

handle_create_snapshot-IsMarkedOnSuccess_example :
    flag_of (codes "db") (handle_create_snapshot host (codes "db") (some form) site).1.dirty.table
    ≡ (if (handle_create_snapshot host (codes "db") (some form) site).0.status == 200
          && strcmp_eq (codes "db") (codes "db")
        then some true
        else none)
handle_create_snapshot-IsMarkedOnSuccess_example =
    handle_create_snapshot-IsMarkedOnSuccess host (codes "db") (codes "db") (some form) site
      db-CanTrack

handle_revert_snapshot-IsMarkedOnSuccess_example :
    flag_of
      (codes "db")
      (handle_revert_snapshot host (codes "auto") (codes "db") (codes "s") none site).1.dirty.table
    ≡ (if (handle_revert_snapshot host (codes "auto") (codes "db") (codes "s") none site).0.status
            == 200
          && strcmp_eq (codes "db") (codes "db")
        then some true
        else none)
handle_revert_snapshot-IsMarkedOnSuccess_example =
    handle_revert_snapshot-IsMarkedOnSuccess host (codes "db") (codes "db") (codes "s")
      (codes "auto") none site db-CanTrack

abbrev names : List Bytes
names = codes "b" ∷ codes "a" ∷ codes ".." ∷ []

sort_entries-IsSorted_example : Perm names (sort_entries names) × IsSorted (sort_entries names)
sort_entries-IsSorted_example = sort_entries-IsSorted names

sort_entries_test : sort_entries names ≡ codes ".." ∷ codes "a" ∷ codes "b" ∷ []
unfolding sort_entries sort_rounds select must_swap strcmp_eq strcmp_le
sort_entries_test = refl

abbrev revert_db : Route
revert_db = revert_snapshot (codes "db") (codes "s")

route_of-url_example : route_of (method_of revert_db) (url_of revert_db) ≡ revert_db
route_of-url_example = route_of-url revert_db (λ e. cc) (ground arith)

abbrev directories : Directories
directories = record { realpath = λ path. none; names = λ path. none; is_dir = λ path. false }

abbrev create_db : Request
create_db = record {
  url = codes "/api/vms/db/snapshots";
  method = codes "POST";
  path = none;
  save_current = none;
  auto_name = codes "auto";
  sudo_user = none;
}

abbrev pieces : List Bytes
pieces = codes "name=" ∷ codes "s" ∷ []

posted : has_body (codes "POST") ≡ true
unfolding strcmp_eq
posted = refl

route_dispatch-IsAnswered_example :
    IsAnswered host directories create_db
      ([] ∷ pieces)
      (body_in pieces)
      site
      (calls host directories create_db none ([] ∷ pieces) site)
route_dispatch-IsAnswered_example =
    route_dispatch-IsAnswered host directories create_db pieces site posted (λ e. cc, (λ e. cc, tt))
