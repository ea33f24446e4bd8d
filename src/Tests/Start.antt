-- ===== src/Tests/Start.antt =====
-- The start of src/main.c with concrete options.
use qemu_snapshot_web_manage.Prelude.{◌≡◌, refl, true, false, none, [], ◌∷◌, List, codes}
use qemu_snapshot_web_manage.Prelude.Int.{pos}
use qemu_snapshot_web_manage.Config.{config_defaults, atoi}
use qemu_snapshot_web_manage.Config.Dropins.{config_load_dropins}
use qemu_snapshot_web_manage.Server.Daemon.{
  Daemon, start_daemon, stop_daemon, on_port, server_start, server_stop, server_check_activation,
}
use qemu_snapshot_web_manage.Start.{Opt, port, uri, Surroundings, parse_options, main}
use qemu_snapshot_web_manage.Start.Port.{IsStopped, main-IsStopped}

abbrev idle_daemon : Daemon
idle_daemon = record {
  running = false;
  socket_activated = false;
  static_dir = [];
  libvirt_uri = [];
  last_request_time = 0;
  calls = [];
}

abbrev well : Surroundings
well = record { connects = true; listen_fds = pos 0; starts = true; now = 5 }

abbrev opts : List Opt
opts = uri (codes "test:///default") ∷ port (codes "8080") ∷ []

main-IsStopped_example : IsStopped true [] (main (λ path. none) none opts well idle_daemon).daemon
main-IsStopped_example = main-IsStopped (λ path. none) none opts well idle_daemon refl

main_test :
    (main (λ path. none) none opts well idle_daemon).daemon.calls
    ≡ stop_daemon ∷ start_daemon (on_port 8080) ∷ []
unfolding main parse_options atoi config_load_dropins config_defaults server_start server_stop
    server_check_activation
main_test = refl
