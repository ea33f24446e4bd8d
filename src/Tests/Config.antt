-- ===== src/Tests/Config.antt =====
-- The settings of src/config.c from concrete texts.
use qemu_snapshot_web_manage.Prelude.{
  ◌≡◌, ◌≤◌, refl, arith, Option, some, List, [], ◌∷◌, length, Bytes, codes, strcmp_eq, strchr,
  before,
}
use qemu_snapshot_web_manage.Prelude.Int.{pos}
use qemu_snapshot_web_manage.Config.{
  config_defaults, config_parse_buffer, parse_one, config_parse_line, atoi, parse_loop, next_line,
  parse_trimmed, set_value, trim_end,
}
use qemu_snapshot_web_manage.Config.Buffer.{unlines, config_parse_buffer-unlines}
use qemu_snapshot_web_manage.Config.Bounds.{
  FitsFields, config_defaults-FitsFields, config_parse_buffer-FitsFields,
}
use qemu_snapshot_web_manage.Config.Dropins.{config_load_dropins}
use qemu_snapshot_web_manage.Config.Dropins.Order.{confs, config_load_dropins-perm}
use mathlib.Core.List.Perm

abbrev port_line : Bytes
port_line = codes "port = 80"

port_test : (config_parse_buffer config_defaults port_line).port ≡ pos 80
unfolding config_parse_buffer config_defaults strcmp_eq parse_loop next_line strchr parse_one
    parse_trimmed before set_value config_parse_line trim_end atoi
port_test = refl

config_parse_buffer-unlines_example :
    config_parse_buffer config_defaults (unlines (codes "[web]" ∷ port_line ∷ []))
    ≡ parse_one (parse_one config_defaults (codes "[web]")) port_line
config_parse_buffer-unlines_example =
    config_parse_buffer-unlines config_defaults (codes "[web]" ∷ port_line ∷ []) (ground arith)

config_parse_buffer-FitsFields_example : FitsFields (config_parse_buffer config_defaults port_line)
config_parse_buffer-FitsFields_example =
    config_parse_buffer-FitsFields config_defaults port_line config_defaults-FitsFields

abbrev names : List Bytes
names = codes "20-b.conf" ∷ codes "10-a.conf" ∷ []

-- Each file sets the port.
abbrev read : Bytes → Option Bytes
read path = some port_line

names_few : length (confs names) ≤ 128
unfolding confs
names_few = ground arith

config_load_dropins-perm_example :
    config_load_dropins read (codes "/etc/d") (some names) config_defaults
    ≡ config_load_dropins read
        (codes "/etc/d")
        (some (codes "10-a.conf" ∷ codes "20-b.conf" ∷ []))
        config_defaults
config_load_dropins-perm_example =
    config_load_dropins-perm read (codes "/etc/d") names
      (codes "10-a.conf" ∷ codes "20-b.conf" ∷ []) config_defaults (Perm.swap _ _ _) names_few
