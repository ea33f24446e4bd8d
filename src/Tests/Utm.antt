-- ===== src/Tests/Utm.antt =====
-- The UTM backend of src/utm_backend.c on a concrete list.
use qemu_snapshot_web_manage.Prelude.{
  ◌≡◌, refl, arith, true, some, none, List, [], ◌∷◌, ◌++◌, map, Bytes, codes, before, is_prefix,
  strstr, strchr,
}
use qemu_snapshot_web_manage.Utm.{System, utmctl_path, utm_list_vms, app_path}
use qemu_snapshot_web_manage.Utm.Folders.{share_path}
use qemu_snapshot_web_manage.Utm.Listing.{Row, IsRow, rows_text, vm_in, utm_list_vms-rows}

abbrev header : Bytes
header = codes "UUID  Status  Name"

abbrev ubuntu : Row
ubuntu = record {
  uuid = codes "13e3";
  gap = codes "  ";
  status = codes "started";
  second_gap = codes " ";
  name = codes "My VM";
}

abbrev rows : List Row
rows = ubuntu ∷ []

ubuntu-IsRow : IsRow ubuntu
ubuntu-IsRow = record {
  uuid = ground arith;
  gap = ground arith;
  status = ground arith;
  second_gap = ground arith;
  name = ground arith;
}

-- `utmctl` prints the list.
abbrev mac : System Unit
mac = record {
  is_executable = λ path. true;
  exec = λ args w. (some (header ++ b'\n' ∷ rows_text rows, some 0), w);
  home = none;
}

path_test : utmctl_path mac ≡ some app_path
unfolding utmctl_path
path_test = refl

utm_list_vms-rows_example : utm_list_vms mac tt ≡ (some (map vm_in rows), tt)
utm_list_vms-rows_example =
    utm_list_vms-rows mac app_path header rows tt tt path_test refl (ground arith) (λ e. cc)
      (ground arith) (ubuntu-IsRow, tt)

share_path_test :
    share_path (codes "  \"directoryShareUrl\" => \"file:///home/me\"") ≡ some (codes "/home/me")
unfolding share_path strstr strchr before is_prefix
share_path_test = refl
