-- ===== src/Host.antt =====
-- `main` of esp-daplink-host/src/main.rs and the loop of `serve` in usbip.rs that accepts clients.
-- Sockets, and what becomes of binding them and of accepting, are tokio's and arguments here, as are
-- the errors that they and axum return. What the tasks that are spawned do is in Usbip and Web.
mod Tests
use esp32_dap_proxy.Prelude.{
  ℕ, Bool, true, false, Option, none, some, List, [], ◌∷◌, ◌++◌, map, Result, ok, err, drop,
}
use esp32_dap_proxy.Args.{Args, ArgsError, parse}

-- The loop of `serve` still waits for a client, or has returned with an error.
pub data Serving (E : Type 0) : Type 0 where
  listening : Serving E
  exited : E → Serving E

abbrev pub and_accepted :
    {Stream E : Type 0} → Stream → List Stream × Serving E → List Stream × Serving E
and_accepted s (ss, r) = (s ∷ ss, r)

-- `serve` of usbip.rs after what binding and accepting bring: the streams for which it spawned a
-- task, in order.
unfoldable pub accept_loop : {Stream E : Type 0} → List (Result Stream E) → List Stream × Serving E
accept_loop [] = ([], listening)
accept_loop (err e ∷ es) = ([], exited e)
accept_loop (ok s ∷ es) = and_accepted s (accept_loop es)

unfoldable pub serve :
    {Stream E : Type 0} → Result (Unit {0}) E → List (Result Stream E) → List Stream × Serving E
serve (err e) accepts = ([], exited e)
serve (ok _) accepts = accept_loop accepts

-- What `main` does, one after the other.
pub data Action (Stream E : Type 0) : Type 0 where
  print_error : ArgsError → Action Stream E
  init_logs start_clock : Action Stream E
  init_subscriber : (filter : Option (List ℕ)) → Action Stream E
  log_start : (listen target : List ℕ) → Action Stream E
  spawn_web : (web target listen : List ℕ) → Action Stream E
  bind_usbip : (listen : List ℕ) → Action Stream E
  spawn_client : (target : List ℕ) → Stream → Action Stream E
  log_exit : E → Action Stream E

abbrev pub on_exit : {Stream E : Type 0} → Serving E → List (Action Stream E)
on_exit listening = []
on_exit (exited e) = log_exit e ∷ []

abbrev pub serve_actions :
    {Stream E : Type 0} → Args → List Stream × Serving E → List (Action Stream E)
serve_actions a (ss, r) = map (λ s. spawn_client a.target s) ss ++ on_exit r

abbrev pub with_args :
    {Stream E : Type 0}
    → Option (List ℕ)
    → Result (Unit {0}) E
    → List (Result Stream E)
    → Result Args ArgsError
    → List (Action Stream E)
with_args filter bound accepts (err msg) = print_error msg ∷ []
with_args filter bound accepts (ok a) =
    init_logs
    ∷ start_clock
    ∷ init_subscriber filter
    ∷ log_start a.listen a.target
    ∷ spawn_web a.web a.target a.listen
    ∷ bind_usbip a.listen
    ∷ serve_actions a (serve bound accepts)

-- `main`; `argv` begins with the name of the program, and `filter` is that of the environment.
unfoldable pub main :
    {Stream E : Type 0}
    → (argv : List (List ℕ)) (filter : Option (List ℕ)) → Result (Unit {0}) E
    → List (Result Stream E)
    → List (Action Stream E)
main argv filter bound accepts = with_args filter bound accepts (parse (drop 1 argv))
