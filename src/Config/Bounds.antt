-- ===== src/Config/Bounds.antt =====
-- The text fields of the settings stay within their arrays.
use qemu_snapshot_web_manage.Prelude.{
  ℕ, zero, suc, ◌<◌, arith, length, length-take, take, Bytes, [], ◌∷◌, Option, none, some, Bool,
  true, false, if◌then◌else◌, before, strchr,
}
use qemu_snapshot_web_manage.Config.{
  Config, atoi, config_defaults, config_parse_line, skip_space, trim_end, set_value, parse_trimmed,
  parse_one, next_line, parse_loop, config_parse_buffer,
}

-- Each text leaves room for its final NUL in 256 bytes.
pub record FitsFields (cfg : Config) : Type 0 where
  pub uri_fits : length cfg.uri < 256
  pub static_dir_fits : length cfg.static_dir < 256
  pub dirty_state_path_fits : length cfg.dirty_state_path < 256

pub config_defaults-FitsFields : FitsFields config_defaults
unfolding config_defaults
config_defaults-FitsFields = omega arith

if-FitsFields :
    (b : Bool) (x y : Config) → FitsFields x → FitsFields y → FitsFields (if b then x else y)
if-FitsFields true x y h k = h
if-FitsFields false x y h k = k

config_parse_line-FitsFields :
    (cfg : Config) (key value : Bytes)
    → FitsFields cfg
    → FitsFields (config_parse_line cfg key value)
unfolding config_parse_line
config_parse_line-FitsFields cfg key value v =
    let cut = length-take 255 value in
    let port : FitsFields (record cfg { port = atoi value }) = omega (arith, v.uri_fits) in
    let idle : FitsFields (record cfg { idle_timeout = atoi value }) = omega (arith, v.uri_fits) in
    let uri : FitsFields (record cfg { uri = take 255 value }) = omega (arith, cut) in
    let dir : FitsFields (record cfg { static_dir = take 255 value }) = omega (arith, cut) in
    let path : FitsFields (record cfg { dirty_state_path = take 255 value }) = omega (arith, cut) in
    if-FitsFields _ _ _ port (
      if-FitsFields _ _ _ idle
        (if-FitsFields _ _ _ uri (if-FitsFields _ _ _ dir (if-FitsFields _ _ _ path v))))

set_value-FitsFields :
    (cfg : Config) (s : Bytes) (e : Option Bytes) → FitsFields cfg → FitsFields (set_value cfg s e)
unfolding set_value
set_value-FitsFields cfg s none v = v
set_value-FitsFields cfg s (some []) v = v
set_value-FitsFields cfg s (some (c ∷ val)) v =
    config_parse_line-FitsFields cfg (trim_end (before b'=' s)) (trim_end (skip_space val)) v

parse_trimmed-FitsFields :
    (cfg : Config) (s : Bytes) → FitsFields cfg → FitsFields (parse_trimmed cfg s)
unfolding parse_trimmed
parse_trimmed-FitsFields cfg [] v = v
parse_trimmed-FitsFields cfg (c ∷ s) v =
    ground (arith, set_value-FitsFields cfg (c ∷ s) (strchr (c ∷ s) b'='))

parse_loop-FitsFields :
    (f : ℕ) (cfg : Config) (p : Bytes) → FitsFields cfg → FitsFields (parse_loop f cfg p)
unfolding parse_loop parse_one
parse_loop-FitsFields zero cfg p v = v
parse_loop-FitsFields (suc f) cfg [] v = v
parse_loop-FitsFields (suc f) cfg (c ∷ p) v =
    let line = skip_space (take 511 (before b'\n' (c ∷ p))) in
    parse_loop-FitsFields f (parse_trimmed cfg line) (next_line (c ∷ p) (strchr (c ∷ p) b'\n'))
      (parse_trimmed-FitsFields cfg line v)

-- No file can make a field longer than its array.
pub config_parse_buffer-FitsFields :
    (cfg : Config) (buf : Bytes) → FitsFields cfg → FitsFields (config_parse_buffer cfg buf)
unfolding config_parse_buffer
config_parse_buffer-FitsFields cfg buf v = parse_loop-FitsFields (suc (length buf)) cfg buf v
