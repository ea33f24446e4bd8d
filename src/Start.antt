-- ===== src/Start.antt =====
-- `main` of src/main.c: the options, and the order in which the parts are started and stopped.
pub mod Port
use qemu_snapshot_web_manage.Prelude.{
  ℕ, ◌+◌, Bool, true, false, not, ◌&&◌, Option, none, some, List, [], ◌∷◌, ◌++◌, leb, ltb,
  if◌then◌else◌, Bytes, codes, snprintf_s,
}
use qemu_snapshot_web_manage.Prelude.Int.{ℤ, pos, negsuc}
use qemu_snapshot_web_manage.Config.{Config, atoi, config_defaults}
use qemu_snapshot_web_manage.Config.Dropins.{config_load_dropins}
use qemu_snapshot_web_manage.Server.Daemon.{
  Listener, on_port, on_socket, Daemon, to_uint16, server_start, server_start_fd,
  server_check_activation, server_stop,
}

-- What `getopt_long` gives for each option, with its argument.
pub data Opt : Type 0 where
  port static_dir uri dirty_state : Bytes → Opt
  help unknown : Opt

-- The variables that the options set.
pub record Settings : Type 0 where
  pub port : ℤ
  pub static_dir : Bytes
  pub uri : Bytes
  pub dirty_state_path : Bytes

-- `main` returns while it reads its options, or goes on.
pub data Parsed : Type 0 where
  exits : ℕ → Parsed
  proceeds : Settings → Parsed

abbrev pub is_port : ℤ → Bool
is_port (pos n) = ltb 0 n && leb n 65535
is_port (negsuc n) = false

unfoldable pub parse_options : List Opt → Settings → Parsed
parse_options [] s = proceeds s
parse_options (Opt.port text ∷ opts) s =
    let rest = parse_options opts (record s { port = atoi text }) in
    if is_port (atoi text) then rest else exits 1
parse_options (Opt.static_dir text ∷ opts) s = parse_options opts (record s { static_dir = text })
parse_options (Opt.uri text ∷ opts) s = parse_options opts (record s { uri = text })
parse_options (dirty_state text ∷ opts) s =
    parse_options opts (record s { dirty_state_path = snprintf_s 256 text })
parse_options (help ∷ opts) s = exits 0
parse_options (unknown ∷ opts) s = exits 1

abbrev settings_of : Config → Settings
settings_of cfg = record {
  port = cfg.port;
  static_dir = cfg.static_dir;
  uri = cfg.uri;
  dirty_state_path = cfg.dirty_state_path;
}

-- How the calls end: the connection, `sd_listen_fds`, the daemon; and the time.
pub record Surroundings : Type 0 where
  pub connects : Bool
  pub listen_fds : ℤ
  pub starts : Bool
  pub now : ℕ

-- The calls of `main` into the backend and the dirty state.
pub data Event : Type 0 where
  connected loaded : Bytes → Event
  stored disconnected : Event

-- The events in order, the daemon, and the exit status.
pub record Ended : Type 0 where
  pub events : List Event
  pub daemon : Daemon
  pub status : ℕ

abbrev started_with : Settings → Surroundings → Daemon → ℤ → Daemon × Bool
started_with s o d (pos fd) = server_start_fd fd s.static_dir s.uri o.now o.starts d
started_with s o d (negsuc n) = server_start s.port s.static_dir s.uri o.now o.starts d

-- A server that has started runs until a signal comes.
abbrev served : Settings → Daemon × Bool → Ended
served s (d, false) = record {
  events = connected s.uri ∷ loaded s.dirty_state_path ∷ disconnected ∷ [];
  daemon = d;
  status = 1;
}
served s (d, true) = record {
  events = connected s.uri ∷ loaded s.dirty_state_path ∷ stored ∷ disconnected ∷ [];
  daemon = server_stop d;
  status = 0;
}

abbrev run_settings : Settings → Surroundings → Daemon → Ended
run_settings s o d =
    if not o.connects
    then record { events = connected s.uri ∷ []; daemon = d; status = 1 }
    else served s (started_with s o d (server_check_activation o.listen_fds))

abbrev run_parsed : Surroundings → Daemon → Parsed → Ended
run_parsed o d (exits status) = record { events = []; daemon = d; status = status }
run_parsed o d (proceeds s) = run_settings s o d

-- `read` and `names` stand for the files of the directory of settings.
unfoldable pub main :
    (Bytes → Option Bytes) → Option (List Bytes) → List Opt → Surroundings → Daemon → Ended
main read names opts o d =
    let cfg = (config_load_dropins read (codes "/etc/qswm/conf.d") names config_defaults).0 in
    run_parsed o d (parse_options opts (settings_of cfg))
