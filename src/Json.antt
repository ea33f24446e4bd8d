-- ===== src/Json.antt =====
-- JSON values, as src/snapshot.c and src/dirty_state.c build them through jansson, and as
-- src/libvirt_backend.c reads them.
use qemu_snapshot_web_manage.Prelude.{Bool, Option, none, some, Bytes, strcmp_eq, if◌then◌else◌}
use qemu_snapshot_web_manage.Prelude.Int.{ℤ}

mutual
  pub data Json : Type 0 where
    string : Bytes → Json
    boolean : Bool → Json
    integer : ℤ → Json
    array : Items → Json
    object : Fields → Json

  pub data Items : Type 0 where
    nil : Items
    cons : Json → Items → Items

  pub data Fields : Type 0 where
    end : Fields
    field : Bytes → Json → Fields → Fields

-- The value of a key. The keys of an object are distinct.
abbrev pub lookup : Bytes → Fields → Option Json
lookup k end = none
lookup k (field j v fs) = if strcmp_eq j k then some v else lookup k fs
