-- ===== src/Config/Dropins.antt =====
-- `config_load_dropins` of src/config.c. The directory and its files are parameters: the names that
-- `readdir` yields, in its order, and the text of each path that can be opened.
pub mod Order
use qemu_snapshot_web_manage.Prelude.{
  ℕ, zero, suc, ◌+◌, ◌-◌, ◌≤◌, ◌<◌, ◌≡◌, ◌⊎◌, refl, sym, ap, ◌∙◌, inl, inr, Bool, true, false, ◌&&◌,
  Option, none, some, List, [], ◌∷◌, ◌++◌, arith, length, take, drop, Bytes, codes, ltb, leb, ◌==◌,
  if◌then◌else◌, strcmp_eq, snprintf_s, Bool-cases,
}
use qemu_snapshot_web_manage.Config.{Config, config_parse_buffer}

-- `strcmp(a, b) <= 0`
unfoldable pub strcmp_le : Bytes → Bytes → Bool
strcmp_le [] b = true
strcmp_le (x ∷ a) [] = false
strcmp_le (x ∷ a) (y ∷ b) = if ltb x y then true else if x == y then strcmp_le a b else false

-- `nlen > 5` and the last five bytes are `.conf`.
unfoldable pub is_conf : Bytes → Bool
unfolding strcmp_eq
is_conf name = ltb 5 (length name) && strcmp_eq (drop (length name - 5) name) (codes ".conf")

-- The loop over `readdir`, which stops at 128 names.
unfoldable pub collect : ℕ → List Bytes → List Bytes
collect room [] = []
collect zero (name ∷ names) = []
collect (suc room) (name ∷ names) = elim (is_conf name) [
  | true ↦ name ∷ collect room names
  | false ↦ collect (suc room) names
]

unfoldable pub insert_sorted : Bytes → List Bytes → List Bytes
insert_sorted a [] = a ∷ []
insert_sorted a (b ∷ l) = if strcmp_le a b then a ∷ b ∷ l else b ∷ insert_sorted a l

-- `qsort` by `cmp_str`: the names in order.
unfoldable pub sort_names : List Bytes → List Bytes
sort_names [] = []
sort_names (a ∷ l) = insert_sorted a (sort_names l)

-- One file: empty files and files of 64 KiB or more are passed over.
unfoldable pub load_text : Config → Option Bytes → Config
load_text cfg none = cfg
load_text cfg (some text) =
    if ltb 0 (length text) && ltb (length text) 65536 then config_parse_buffer cfg text else cfg

unfoldable pub load_dropin : (Bytes → Option Bytes) → Bytes → Config → Bytes → Config
load_dropin read conf_dir cfg name = load_text cfg (read (snprintf_s 512 (conf_dir ++ b'/' ∷ name)))

unfoldable pub load_all : (Bytes → Option Bytes) → Bytes → Config → List Bytes → Config
load_all read conf_dir cfg [] = cfg
load_all read conf_dir cfg (name ∷ names) =
    load_all read conf_dir (load_dropin read conf_dir cfg name) names

-- `none` is a directory that cannot be opened.
unfoldable pub config_load_dropins :
    (Bytes → Option Bytes) → Bytes → Option (List Bytes) → Config → Config × ℕ
config_load_dropins read conf_dir none cfg = (cfg, 0)
config_load_dropins read conf_dir (some names) cfg =
    let files = collect 128 names in (load_all read conf_dir cfg (sort_names files), length files)
