-- ===== src/Server/Daemon.antt =====
-- src/server.c: starting and stopping the daemon of libmicrohttpd.
use qemu_snapshot_web_manage.Prelude.{
  ℕ, ◌-◌, ◌%◌, ◌==◌, Bool, true, false, List, ◌∷◌, if◌then◌else◌, Bytes,
}
use qemu_snapshot_web_manage.Prelude.Int.{ℤ, pos, negsuc}

-- Where the daemon listens.
pub data Listener : Type 0 where
  on_port on_socket : ℕ → Listener

-- The calls of libmicrohttpd.
pub data DaemonCall : Type 0 where
  start_daemon : Listener → DaemonCall
  quiesce_daemon stop_daemon : DaemonCall

-- The static variables of the file, and the calls so far, the last one first. `running` says that
-- `daemon_handle` is not `NULL`.
pub record Daemon : Type 0 where
  pub running : Bool
  pub socket_activated : Bool
  pub static_dir : Bytes
  pub libvirt_uri : Bytes
  pub last_request_time : ℕ
  pub calls : List DaemonCall

-- `(uint16_t)port`
abbrev pub to_uint16 : ℤ → ℕ
to_uint16 (pos n) = n % 65536
to_uint16 (negsuc n) = 65535 - n % 65536

-- `listener` is passed to `MHD_start_daemon`, and `started` is whether that gives a daemon.
abbrev starting : Listener → Bool → Bytes → Bytes → ℕ → Bool → Daemon → Daemon × Bool
starting listener activated static_dir libvirt_uri now started d =
    let called : Daemon = record d {
      running = started;
      static_dir = static_dir;
      libvirt_uri = libvirt_uri;
      last_request_time = now;
      calls = start_daemon listener ∷ d.calls;
    } in
    if started then (record called { socket_activated = activated }, true) else (called, false)

unfoldable pub server_start : ℤ → Bytes → Bytes → ℕ → Bool → Daemon → Daemon × Bool
server_start port static_dir libvirt_uri now started d =
    starting (on_port (to_uint16 port)) false static_dir libvirt_uri now started d

unfoldable pub server_start_fd : ℕ → Bytes → Bytes → ℕ → Bool → Daemon → Daemon × Bool
server_start_fd fd static_dir libvirt_uri now started d =
    starting (on_socket fd) true static_dir libvirt_uri now started d

-- `n` is what `sd_listen_fds` gives; the first descriptor is 3.
unfoldable pub server_check_activation : ℤ → ℤ
server_check_activation (negsuc n) = negsuc 0
server_check_activation (pos n) = if n == 0 then negsuc 0 else pos 3

-- A socket that systemd passed is quiesced first, so that it stays open.
unfoldable pub server_stop : Daemon → Daemon
server_stop d =
    let quiesced =
      if d.socket_activated
      then stop_daemon ∷ quiesce_daemon ∷ d.calls
      else stop_daemon ∷ d.calls in
    if d.running
    then record d { running = false; socket_activated = false; calls = quiesced }
    else d
