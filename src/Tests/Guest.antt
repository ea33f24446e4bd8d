-- ===== src/Tests/Guest.antt =====
-- The guest of src/libvirt_backend.c with agents that answer in a fixed way.
use qemu_snapshot_web_manage.Prelude.{
  ◌≡◌, refl, none, some, List, [], ◌∷◌, map, true, false, Bytes, codes, strcmp_eq, strchr,
  is_prefix,
}
use qemu_snapshot_web_manage.Prelude.Int.{ℤ, pos}
use qemu_snapshot_web_manage.Json.{Json, string, boolean, integer, object, end, field}
use qemu_snapshot_web_manage.Backend.{SharedFolder}
use qemu_snapshot_web_manage.Libvirt.Session.{Libvirt}
use qemu_snapshot_web_manage.Libvirt.Folders.{cleared}
use qemu_snapshot_web_manage.Libvirt.Guest.{
  Agent, guest_exec, poll, has_exited, is_positive, to_int,
}
use qemu_snapshot_web_manage.Libvirt.Guest.Polls.{
  Spent, IsWithin, IsTold, counted, guest_exec-IsWithin, guest_exec-IsTold,
}
use qemu_snapshot_web_manage.Libvirt.Guest.Mounts.{
  read_mounts, mark_mounted, is_mounted, is_entry, skip_indent, mount_point,
}
use qemu_snapshot_web_manage.Libvirt.Guest.Mounts.Lines.{shown_in, read_mounts-shown_in}
use qemu_snapshot_web_manage.Tests.Libvirt.{one_machine}

-- An agent whose processes have exited at once, with this code and this output.
abbrev answer : ℤ → Bytes → Json
answer code out = object (
    field (codes "return")
      (object (
        field (codes "pid") (integer (pos 7)) (
          field (codes "exited") (boolean true)
            (field (codes "exitcode") (integer code) (field (codes "out-data") (string out) end)))))
      end)

abbrev at_once : {W : Type 0} → ℤ → Bytes → Agent W
at_once code out = record {
  command = λ name text timeout w. (some [], w);
  sleep = λ seconds w. w;
  json_loads = λ text. some (answer code out);
}

-- An agent whose processes never exit.
abbrev never : {W : Type 0} → Agent W
never = record {
  command = λ name text timeout w. (some [], w);
  sleep = λ seconds w. w;
  json_loads = λ text.
      some
        (object (field (codes "return") (object (field (codes "pid") (integer (pos 7)) end)) end));
}

abbrev running_machine : Libvirt Unit
running_machine = record one_machine { domain_info = λ name w. (some 1, w) }

guest_exec-IsTold_example :
    IsTold {W = Unit}
      (at_once (pos 0) (codes "b2s="))
      (codes "web")
      (guest_exec running_machine
        (at_once (pos 0) (codes "b2s="))
        (codes "web")
        (codes "true")
        tt).0
guest_exec-IsTold_example =
    guest_exec-IsTold running_machine (at_once (pos 0) (codes "b2s=")) (codes "web") (codes "true")
      tt

-- The machine of `one_machine` over counted calls.
abbrev counted_machine : Libvirt (Spent Unit)
counted_machine = record {
  connect = λ uri s. (true, s);
  close = λ s. s;
  lookup = λ name s. (true, s);
  all_domains = λ connected s. (none, s);
  create = λ name s. (true, s);
  shutdown = λ name s. (true, s);
  destroy = λ name s. (true, s);
  suspend = λ name s. (true, s);
  resume = λ name s. (true, s);
  domain_info = λ name s. (some 1, s);
  inactive_xml = λ name s. (none, s);
  define_xml = λ connected xml s. (false, s);
  snapshot_current = λ name s. (none, s);
  snapshot_lookup = λ name snap s. (false, s);
  snapshot_xml_desc = λ name snap secure s. (none, s);
  snapshot_create_xml = λ name xml flags s. (false, s);
  snapshot_delete = λ name snap metadata_only s. (false, s);
  snapshot_revert = λ name snap s. (false, s);
  block_commit = λ name disk s. (false, s);
  reset_last_error = λ s. s;
  last_message = λ s. none;
  system = λ command s. (none, s);
  unlink = λ path s. s;
}

abbrev nothing_spent : Spent Unit
nothing_spent = record { commands = 0; seconds = 0; guest = tt }

guest_exec-IsWithin_example :
    IsWithin nothing_spent
      (guest_exec counted_machine (counted never) (codes "web") (codes "true") nothing_spent).1
      11
      10
guest_exec-IsWithin_example =
    guest_exec-IsWithin never (codes "web") counted_machine (codes "true") nothing_spent

-- The bound is reached where the process never exits.
guest_exec_test :
    (guest_exec counted_machine (counted never) (codes "web") (codes "true") nothing_spent).1
    ≡ record { commands = 11; seconds = 10; guest = tt }
unfolding guest_exec poll is_positive to_int has_exited strcmp_eq
guest_exec_test = refl

abbrev two_folders : List SharedFolder
two_folders =
    record cleared { mount_tag = some (codes "data") }
    ∷ record cleared { mount_tag = some (codes "dat") }
    ∷ []

abbrev findmnt : Bytes
findmnt = codes "/ ext4\n  /media/data virtiofs\n"

read_mounts-shown_in_example :
    read_mounts (record { success = true; message = some findmnt }) two_folders
    ≡ map (shown_in findmnt) two_folders
read_mounts-shown_in_example = read_mounts-shown_in findmnt two_folders

read_mounts_test :
    map
      (λ (f : SharedFolder). f.mounted)
      (read_mounts (record { success = true; message = some findmnt }) two_folders)
    ≡ (pos 1 ∷ pos 0 ∷ [])
unfolding read_mounts mark_mounted is_mounted is_entry skip_indent mount_point strchr is_prefix
read_mounts_test = refl
