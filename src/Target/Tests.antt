-- ===== src/Target/Tests.antt =====
-- A run of the probe's program over pins whose data line is high, with one client that sends a
-- request in two reads.
use esp32_dap_proxy.Prelude.{ℕ, refl, Bool, true, false, Option, none, some, List, [], ◌∷◌, arith}
use esp32_dap_proxy.Tcp.{chunk, failed}
use esp32_dap_proxy.Io.BitBang.{Gpio}
use esp32_dap_proxy.Io.BitBang.Enable.{Enable}
use esp32_dap_proxy.Run.{Round, no_client, client}
use esp32_dap_proxy.Run.Sessions.{all_written}
use esp32_dap_proxy.Target.{probe_transport, main}
use esp32_dap_proxy.Target.Boot.{IsUp, main-IsUp}

-- The state is the level that SWDIO was last set to, and whether its output is enabled.
abbrev gpio : Gpio
gpio = record {
  State = Bool × Bool;
  set_swclk = λ high s. s;
  set_swdio = λ high s. (high, s.1);
  swdio_is_high = λ s. s.0;
  set_output_enable = λ on s. (s.0, on);
  set_input_enable = λ on s. s;
  apply_output_config = λ s. s;
  apply_input_config = λ s. s;
  set_reset = λ high s. s;
  apply_reset_config = λ s. s;
}

abbrev enable : Enable gpio
enable = record {
  enabled = λ s. s.1;
  enabled-set_output_enable = λ on s. refl;
  enabled-set_swclk = λ high s. refl;
  enabled-set_swdio = λ high s. refl;
  enabled-set_reset = λ high s. refl;
}

abbrev polls : List (Option ℕ)
polls = none ∷ none ∷ some 0xC0A88997 ∷ []

abbrev some_rounds : List (Round (probe_transport gpio))
some_rounds =
    no_client
    ∷ client (chunk (0xDA ∷ 0x01 ∷ 0x00 ∷ []) ∷ chunk (0x02 ∷ []) ∷ failed ∷ []) all_written
    ∷ []

main-IsUp_example : IsUp gpio enable polls (main gpio polls (true, false) some_rounds)
main-IsUp_example =
    main-IsUp gpio enable polls (true, false) some_rounds
      (tt, ((ground arith, (ground arith, (tt, tt))), tt))
