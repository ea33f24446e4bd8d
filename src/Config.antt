-- ===== src/Config.antt =====
-- src/config.c: the settings, and the INI files that change them.
pub mod Line
pub mod Buffer
pub mod Bounds
pub mod Dropins
use qemu_snapshot_web_manage.Prelude.{
  ℕ, zero, suc, ◌+◌, ◌-◌, ◌*◌, Bool, true, false, ◌&&◌, ◌||◌, Option, none, some, List, [], ◌∷◌,
  ◌==◌, leb, min, if◌then◌else◌, Bytes, codes, length, take, drop, strcmp_eq, strchr, before,
  snprintf_s,
}
use qemu_snapshot_web_manage.Prelude.Int.{ℤ, pos, neg_ℕ}

pub record Config : Type 0 where
  pub port : ℤ
  pub idle_timeout : ℤ
  pub uri : Bytes
  pub static_dir : Bytes
  pub dirty_state_path : Bytes

-- The size of each text field.
abbrev pub field_size : ℕ
field_size = 256

unfoldable pub config_defaults : Config
config_defaults = record {
  port = pos 9091;
  idle_timeout = pos 600;
  uri = codes "qemu:///system";
  static_dir = codes "/usr/local/share/qswm/static";
  dirty_state_path = codes "/var/lib/qswm/dirty-state.json";
}

-- `isspace` of the C locale.
abbrev pub is_space : ℕ → Bool
is_space c = c == b' ' || (leb 9 c && leb c 13)

abbrev pub skip_space : Bytes → Bytes
skip_space [] = []
skip_space (c ∷ s) = if is_space c then skip_space s else c ∷ s

abbrev pub is_digit : ℕ → Bool
is_digit c = leb b'0' c && leb c b'9'

-- `atoi` up to the first byte that is no digit. A value past the range of `int` is not defined by C;
-- here it is the number itself.
abbrev read_digits : ℕ → Bytes → ℕ
read_digits n [] = n
read_digits n (c ∷ s) = if is_digit c then read_digits (n * 10 + (c - b'0')) s else n

abbrev signed : Bytes → ℤ
signed [] = pos 0
signed (c ∷ s) =
    if c == b'-'
    then neg_ℕ (read_digits 0 s)
    else if c == b'+'
    then pos (read_digits 0 s)
    else pos (read_digits 0 (c ∷ s))

unfoldable pub atoi : Bytes → ℤ
atoi s = signed (skip_space s)

unfoldable pub config_parse_line : Config → Bytes → Bytes → Config
config_parse_line cfg key value =
    if strcmp_eq key (codes "port")
    then record cfg { port = atoi value }
    else if strcmp_eq key (codes "idle_timeout")
    then record cfg { idle_timeout = atoi value }
    else if strcmp_eq key (codes "uri")
    then record cfg { uri = snprintf_s field_size value }
    else if strcmp_eq key (codes "static_dir")
    then record cfg { static_dir = snprintf_s field_size value }
    else if strcmp_eq key (codes "dirty_state_path")
    then record cfg { dirty_state_path = snprintf_s field_size value }
    else cfg

-- The text without the whitespace at its end.
unfoldable pub strip_end : Bytes → Bytes
strip_end [] = []
strip_end (c ∷ s) = elim (strip_end s) [
  | [] ↦ if is_space c then [] else c ∷ []
  | d ∷ r ↦ c ∷ d ∷ r
]

-- `while (end > s && isspace(*end)) *end-- = '\0'` never removes the first byte.
unfoldable pub trim_end : Bytes → Bytes
unfolding strip_end
trim_end [] = []
trim_end (c ∷ s) = c ∷ strip_end s

abbrev is_comment_mark : ℕ → Bool
is_comment_mark c = c == b'#' || c == b';' || c == b'['

-- The two sides of `=`; `none` stands for a line without it.
unfoldable pub set_value : Config → Bytes → Option Bytes → Config
set_value cfg s none = cfg
set_value cfg s (some []) = cfg
set_value cfg s (some (eq ∷ val)) =
    config_parse_line cfg (trim_end (before b'=' s)) (trim_end (skip_space val))

-- The body of the loop behind the leading whitespace.
unfoldable pub parse_trimmed : Config → Bytes → Config
parse_trimmed cfg [] = cfg
parse_trimmed cfg (c ∷ s) =
    if is_comment_mark c then cfg else set_value cfg (c ∷ s) (strchr (c ∷ s) b'=')

unfoldable pub parse_one : Config → Bytes → Config
parse_one cfg line = parse_trimmed cfg (skip_space line)

-- `char line[512]`
abbrev pub line_max : ℕ
line_max = 511

-- `p = eol ? eol + 1 : p + len`, where `len` was cut to the size of `line`.
unfoldable pub next_line : Bytes → Option Bytes → Bytes
next_line p none = drop (min (length p) line_max) p
next_line p (some []) = []
next_line p (some (nl ∷ rest)) = rest

-- `while (*p)`, with fuel for the rounds.
unfoldable pub parse_loop : ℕ → Config → Bytes → Config
parse_loop zero cfg p = cfg
parse_loop (suc fuel) cfg [] = cfg
parse_loop (suc fuel) cfg (c ∷ p) =
    parse_loop fuel (parse_one cfg (take line_max (before b'\n' (c ∷ p))))
      (next_line (c ∷ p) (strchr (c ∷ p) b'\n'))

-- Each round takes at least one byte, so `strlen(buf) + 1` rounds are enough.
unfoldable pub config_parse_buffer : Config → Bytes → Config
config_parse_buffer cfg buf = parse_loop (suc (length buf)) cfg buf
