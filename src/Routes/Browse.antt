-- ===== src/Routes/Browse.antt =====
-- `handle_browse_dir` of src/routes.c. What the system says of a path enters as a parameter.
pub mod Sorted
use qemu_snapshot_web_manage.Prelude.{
  ℕ, zero, suc, Bool, true, false, not, ◌&&◌, ◌||◌, Option, none, some, List, [], ◌∷◌, ◌++◌, ◌==◌,
  if◌then◌else◌, Bytes, codes, snprintf_s, strcmp_eq, length,
}
use qemu_snapshot_web_manage.Config.Dropins.{strcmp_le}
use qemu_snapshot_web_manage.Routes.{Response, Page, error, directory_listing, send_html}

-- `realpath`; the names that `readdir` yields, `none` if the directory cannot be opened; and whether
-- a path is a directory for `stat`.
pub record Directories : Type 0 where
  pub realpath : Bytes → Option Bytes
  pub names : Bytes → Option (List Bytes)
  pub is_dir : Bytes → Bool

abbrev home_of : Option Bytes → Bytes
home_of none = codes "/home"
home_of (some sudo_user) = snprintf_s 4096 (codes "/home/" ++ sudo_user)

-- The path of the request if it is absolute, or the home of the user behind `sudo`.
unfoldable pub start_path : Option Bytes → Option Bytes → Bytes
start_path sudo_user none = home_of sudo_user
start_path sudo_user (some []) = home_of sudo_user
start_path sudo_user (some (c ∷ path)) = if c == b'/' then c ∷ path else home_of sudo_user

abbrev pub parent : Bytes
parent = codes ".."

abbrev is_hidden : Bytes → Bool
is_hidden [] = false
is_hidden (c ∷ name) =
    (c == b'.' && not (strcmp_eq (c ∷ name) parent)) || strcmp_eq (c ∷ name) (codes ".")

-- The loop over `readdir`: directories, and of those that begin with a dot only the parent.
unfoldable pub collect_dirs : Directories → Bytes → List Bytes → List Bytes
collect_dirs d resolved [] = []
collect_dirs d resolved (name ∷ names) =
    let rest = collect_dirs d resolved names in
    if is_hidden name
    then rest
    else if not (d.is_dir (snprintf_s 4352 (resolved ++ b'/' ∷ name)))
    then rest
    else name ∷ rest

-- The test for a swap of two entries, the first before the second.
unfoldable pub must_swap : Bytes → Bytes → Bool
must_swap a b = strcmp_eq b parent || (not (strcmp_eq a parent) && not (strcmp_le a b))

-- The inner loop: the entry at `i` against each one behind it. The entry that ends up at `i`, and
-- those behind it.
unfoldable pub select : Bytes → List Bytes → Bytes × List Bytes
select a [] = (a, [])
select a (b ∷ rest) =
    let (first, others) = select (if must_swap a b then b else a) rest in
    (first, (if must_swap a b then a else b) ∷ others)

-- The outer loop, with a round for each entry.
unfoldable pub sort_rounds : ℕ → List Bytes → List Bytes
sort_rounds zero entries = entries
sort_rounds (suc rounds) [] = []
sort_rounds (suc rounds) (a ∷ rest) =
    let (first, others) = select a rest in first ∷ sort_rounds rounds others

unfoldable pub sort_entries : List Bytes → List Bytes
sort_entries entries = sort_rounds (length entries) entries

abbrev listed : Directories → Bytes → Option (List Bytes) → Response
listed d resolved none = send_html 403 (error (codes "Cannot open directory"))
listed d resolved (some names) =
    send_html 200 (directory_listing resolved (sort_entries (collect_dirs d resolved names)))

abbrev browsed : Directories → Option Bytes → Response
browsed d none = send_html 404 (error (codes "Directory not found"))
browsed d (some resolved) = listed d resolved (d.names resolved)

-- `sudo_user` is the environment's `SUDO_USER`.
unfoldable pub handle_browse_dir : Directories → Option Bytes → Option Bytes → Response
handle_browse_dir d sudo_user path = browsed d (d.realpath (start_path sudo_user path))
