-- ===== src/Start/Port.antt =====
-- The port of src/main.c, and the daemon once `main` returns.
use qemu_snapshot_web_manage.Prelude.{
  ℕ, ◌≡◌, ◌⊎◌, refl, inl, inr, Bool, true, false, List, [], ◌∷◌, Bytes, Option, Bool-cases, ◌==◌,
}
use qemu_snapshot_web_manage.Prelude.Int.{ℤ, pos, negsuc}
use qemu_snapshot_web_manage.Config.{atoi}
use qemu_snapshot_web_manage.Server.Daemon.{
  Daemon, DaemonCall, Listener, start_daemon, quiesce_daemon, stop_daemon, on_port, on_socket,
  to_uint16, server_start, server_start_fd, server_check_activation, server_stop,
}
use qemu_snapshot_web_manage.Start.{
  Opt, port, static_dir, uri, dirty_state, help, unknown, Settings, Parsed, exits, proceeds,
  Surroundings, is_port, parse_options, served, run_settings, run_parsed, main,
}

-- What goes on with a port: that of the settings files, or one from 1 to 65535.
abbrev pub HasPort : ℤ → Parsed → Type 0
HasPort configured (exits status) = Unit
HasPort configured (proceeds s) = (s.port ≡ configured) ⊎ (is_port s.port ≡ true)

was_checked :
    (checked configured : ℤ) (p : Parsed)
    → is_port checked ≡ true
    → HasPort checked p
    → HasPort configured p
was_checked checked configured (exits status) h k = tt
was_checked checked configured (proceeds s) h (inl same) = inr (rw same h)
was_checked checked configured (proceeds s) h (inr good) = inr good

-- A port of the command line is from 1 to 65535; that of the settings files is taken over as it is.
parse_options-HasPort : (opts : List Opt) (s : Settings) → HasPort s.port (parse_options opts s)
unfolding parse_options
parse_options-HasPort [] s = inl refl
parse_options-HasPort (port text ∷ opts) s = elim (Bool-cases (is_port (atoi text))) [
  | inl good ↦ rw good (
      was_checked (atoi text) s.port (parse_options opts (record s { port = atoi text })) good
        (parse_options-HasPort opts (record s { port = atoi text })))
  | inr bad ↦ rw bad tt
]
parse_options-HasPort (static_dir text ∷ opts) s = parse_options-HasPort opts _
parse_options-HasPort (uri text ∷ opts) s = parse_options-HasPort opts _
parse_options-HasPort (dirty_state text ∷ opts) s = parse_options-HasPort opts _
parse_options-HasPort (help ∷ opts) s = tt
parse_options-HasPort (unknown ∷ opts) s = tt

-- The daemon after `main`, where `starts` says whether libmicrohttpd can start one: it was not started,
-- or could not be started, or was stopped; a socket that systemd passed was quiesced before that, and a
-- port was not.
pub data IsStopped (starts : Bool) (before_start : List DaemonCall) (d : Daemon) : Type 0 where
  not_started : d.running ≡ false → d.calls ≡ before_start → IsStopped starts before_start d
  refused :
      (listener : Listener)
      → starts ≡ false
      → d.running ≡ false
      → d.calls ≡ start_daemon listener ∷ before_start
      → IsStopped starts before_start d
  left_port :
      (n : ℤ)
      → starts ≡ true
      → d.running ≡ false
      → d.calls ≡ stop_daemon ∷ start_daemon (on_port (to_uint16 n)) ∷ before_start
      → IsStopped starts before_start d
  left_socket :
      starts ≡ true
      → d.running ≡ false
      → d.calls ≡ stop_daemon ∷ quiesce_daemon ∷ start_daemon (on_socket 3) ∷ before_start
      → IsStopped starts before_start d

port-IsStopped :
    (s : Settings) (now : ℕ) (starts : Bool) (d : Daemon)
    → IsStopped starts d.calls
        (served s (server_start s.port s.static_dir s.uri now starts d)).daemon
unfolding server_start server_stop
port-IsStopped s now true d = left_port s.port refl refl refl
port-IsStopped s now false d = refused (on_port (to_uint16 s.port)) refl refl refl

socket-IsStopped :
    (s : Settings) (now : ℕ) (starts : Bool) (d : Daemon)
    → IsStopped starts d.calls (served s (server_start_fd 3 s.static_dir s.uri now starts d)).daemon
unfolding server_start_fd server_stop
socket-IsStopped s now true d = left_socket refl refl refl
socket-IsStopped s now false d = refused (on_socket 3) refl refl refl

activation-cases :
    (n : ℤ) → (server_check_activation n ≡ negsuc 0) ⊎ (server_check_activation n ≡ pos 3)
unfolding server_check_activation
activation-cases (negsuc n) = inl refl
activation-cases (pos n) = elim (Bool-cases (n == 0)) [
  | inl none_passed ↦ inl (rw none_passed refl)
  | inr passed ↦ inr (rw passed refl)
]

run_settings-IsStopped :
    (s : Settings) (connects : Bool) (fds : ℤ) (starts : Bool) (now : ℕ) (d : Daemon)
    → d.running ≡ false
    → IsStopped starts d.calls
        (run_settings s
          (record { connects = connects; listen_fds = fds; starts = starts; now = now })
          d).daemon
run_settings-IsStopped s false fds starts now d off = not_started off refl
run_settings-IsStopped s true fds starts now d off = elim (activation-cases fds) [
  | inl on_its_own ↦ rw on_its_own (port-IsStopped s now starts d)
  | inr activated ↦ rw activated (socket-IsStopped s now starts d)
]

run_parsed-IsStopped :
    (o : Surroundings) (d : Daemon) (p : Parsed)
    → d.running ≡ false
    → IsStopped o.starts d.calls (run_parsed o d p).daemon
run_parsed-IsStopped o d (exits status) off = not_started off refl
run_parsed-IsStopped o d (proceeds s) off =
    run_settings-IsStopped s o.connects o.listen_fds o.starts o.now d off

-- When `main` returns, whatever the options and the settings are and however its calls end, no daemon
-- runs. Where libmicrohttpd can start one, the calls made of it are none at all, or the start on a port
-- and the stop, or the start on the socket that systemd passed, its quiescing and the stop, in this
-- order; where it cannot, they are none or the start alone.
pub main-IsStopped :
    (read : Bytes → Option Bytes) (names : Option (List Bytes)) (opts : List Opt) (o : Surroundings)
    (d : Daemon)
    → d.running ≡ false
    → IsStopped o.starts d.calls (main read names opts o d).daemon
unfolding main
main-IsStopped read names opts o d off = run_parsed-IsStopped o d (parse_options opts _) off
