-- ===== src/Utm/Folders.antt =====
-- `utm_list_shared_folders` of src/utm_backend.c.
use qemu_snapshot_web_manage.Prelude.{
  ℕ, suc, false, Option, none, some, List, [], ◌∷◌, ◌++◌, if◌then◌else◌, Bytes, codes, drop, before,
  is_prefix, strstr, strchr, ltb, snprintf_s,
}
use qemu_snapshot_web_manage.Prelude.Int.{ℤ, pos}
use qemu_snapshot_web_manage.Backend.{SharedFolder, Call}
use qemu_snapshot_web_manage.Utm.{System, run_cmd, is_zero}
use qemu_snapshot_web_manage.Utm.Lines.{tokens}

-- The place of the key in a line.
abbrev share_key : Bytes → Option Bytes
share_key line = elim (strstr line (codes "directoryShareUrl")) [
  | some key ↦ some key
  | none ↦ strstr line (codes "DirectoryShare")
]

abbrev without_scheme : Bytes → Bytes
without_scheme path = if is_prefix path (codes "file://") then drop 7 path else path

-- The text in quotes, from behind the first of them, if there is a second.
abbrev quoted : Bytes → Option Bytes
quoted s = elim (strchr s b'"') [ none ↦ none | some vq2 ↦ some (without_scheme (before b'"' s)) ]

abbrev behind_arrow : Option Bytes → Option Bytes
behind_arrow none = none
behind_arrow (some arrow) = elim (strchr arrow b'"') [
  | none ↦ none
  | some vq1 ↦ quoted (drop 1 vq1)
]

abbrev behind_key : Option Bytes → Option Bytes
behind_key none = none
behind_key (some key) = elim (strstr key (codes "\"")) [
  | none ↦ none
  | some quote1 ↦ behind_arrow (strstr (drop 1 quote1) (codes "=>"))
]

-- The path that a line shares.
unfoldable pub share_path : Bytes → Option Bytes
share_path line = behind_key (share_key line)

abbrev zeroed : SharedFolder
zeroed = record {
  source_dir = none;
  mount_tag = none;
  fs_type = none;
  read_only = false;
  mounted = pos 0;
  needs_restart = false;
}

-- The element at an index before it is set: `calloc` clears the first four, and `left` is what
-- `realloc` leaves in the others.
abbrev element : (ℕ → SharedFolder) → ℕ → SharedFolder
element left n = if ltb n 4 then zeroed else left n

abbrev folder_at : (ℕ → SharedFolder) → ℕ → Bytes → SharedFolder
folder_at left n path = record (element left n) {
  source_dir = some path;
  mount_tag = some (codes "virtiofs");
  read_only = false;
}

unfoldable pub parse_shares : (ℕ → SharedFolder) → ℕ → List Bytes → List SharedFolder
parse_shares left n [] = []
parse_shares left n (line ∷ lines) = elim (share_path line) [
  | none ↦ parse_shares left n lines
  | some path ↦ folder_at left n path ∷ parse_shares left (suc n) lines
]

abbrev plist_path : Bytes → Bytes → Bytes
plist_path home vm_name = snprintf_s 1024 (
    home
    ++ (codes "/Library/Containers/com.utmapp.UTM/Data/Documents/"
        ++ (vm_name ++ codes ".utm/config.plist")))

-- A file that cannot be read is an empty list.
abbrev shares_in : (ℕ → SharedFolder) → Bytes × ℤ → Option (List SharedFolder)
shares_in left (output, ret) =
    if is_zero ret then some (parse_shares left 0 (tokens output)) else some []

module _ {W : Type 0} where
  abbrev shares_with :
      System W → (ℕ → SharedFolder) → Option Bytes → Bytes → Call W (Option (List SharedFolder))
  shares_with sys left none vm_name w = (none, w)
  shares_with sys left (some home) vm_name w =
      let (result, w') =
        run_cmd sys (codes "/usr/bin/plutil" ∷ codes "-p" ∷ plist_path home vm_name ∷ []) 8192 w in
      (shares_in left result, w')

  unfoldable pub utm_list_shared_folders :
      System W → (ℕ → SharedFolder) → Bytes → Call W (Option (List SharedFolder))
  utm_list_shared_folders sys left = shares_with sys left sys.home
