-- ===== src/Host/Tests.antt =====
-- A run of the host's program: two clients, after which no more can be accepted.
use esp32_dap_proxy.Prelude.{ℕ, ◌≡◌, refl, none, List, [], ◌∷◌, Result, ok, err}
use esp32_dap_proxy.Prelude.Text.{codes}
use esp32_dap_proxy.Args.{parse, parse_from, arm_of, usage}
use esp32_dap_proxy.Host.{
  print_error, init_logs, start_clock, init_subscriber, log_start, spawn_web, bind_usbip,
  spawn_client, log_exit, accept_loop, serve, main,
}

abbrev clients : List (Result ℕ ℕ)
clients = ok 1 ∷ ok 2 ∷ err 9 ∷ ok 3 ∷ []

two_clients :
    main (codes "host" ∷ codes "--target" ∷ codes "probe:1" ∷ []) none (ok tt) clients
    ≡ init_logs
      ∷ start_clock
      ∷ init_subscriber none
      ∷ log_start (codes "0.0.0.0:3240") (codes "probe:1")
      ∷ spawn_web (codes "127.0.0.1:3241") (codes "probe:1") (codes "0.0.0.0:3240")
      ∷ bind_usbip (codes "0.0.0.0:3240")
      ∷ spawn_client (codes "probe:1") 1
      ∷ spawn_client (codes "probe:1") 2
      ∷ log_exit 9
      ∷ []
unfolding main parse parse_from arm_of serve accept_loop
two_clients = refl

help_only : main (codes "host" ∷ codes "-h" ∷ []) none (ok tt) clients ≡ print_error usage ∷ []
unfolding main parse parse_from arm_of
help_only = refl
