-- ===== src/Run/SwdTests.antt =====
-- The commands and the loop of channel/mod.rs over transport/swd.rs, on pins whose data line is low.
use esp32_dap_proxy.Prelude.{
  ℕ, ◌≡◌, refl, Bool, true, false, some, List, [], ◌∷◌, arith, length, length-replicate, replicate,
}
use esp32_dap_proxy.Prelude.Bytes.{All, IsByte}
use esp32_dap_proxy.Frame
use esp32_dap_proxy.Tcp.{chunk, failed}
use esp32_dap_proxy.Transport.{Transport}
use esp32_dap_proxy.Io.{Io}
use esp32_dap_proxy.Io.Drive.{Drive}
use esp32_dap_proxy.Swd.{Swd, swd_transport}
use esp32_dap_proxy.Swd
use esp32_dap_proxy.Swd.Bus.{IsReady}
use esp32_dap_proxy.Swd.Keeps.{swd-Keeps}
use esp32_dap_proxy.Dap.State.{Dap}
use esp32_dap_proxy.Dap.State
use esp32_dap_proxy.Dap.Handle.{handle}
use esp32_dap_proxy.Dap.Keeps.Handle.{handle-Keeps}
use esp32_dap_proxy.Run.{Probe, Round, no_client, client, run}
use esp32_dap_proxy.Run.Sessions.{all_written}
use esp32_dap_proxy.Run.Keeps.{zeros-IsByte, KeptRunning, run-Keeps}

-- The state says whether the output of the data line is enabled.
abbrev pins : Io
pins = record {
  State = Bool;
  set_clk_high = λ s. s;
  set_clk_low = λ s. s;
  set_data_high = λ s. s;
  set_data_low = λ s. s;
  is_data_high = λ s. false;
  set_data_output = λ s. true;
  set_data_input = λ s. false;
  clock_cycle = λ s. s;
  set_reset = λ high s. s;
}

abbrev drive : Drive pins
drive = record {
  output = λ s. s;
  output-set_data_output = λ s. refl;
  output-set_data_input = λ s. refl;
  output-set_clk_high = λ s. refl;
  output-set_clk_low = λ s. refl;
  output-set_data_high = λ s. refl;
  output-set_data_low = λ s. refl;
  output-clock_cycle = λ s. refl;
  output-set_reset = λ high s. refl;
}

abbrev over_swd : Transport
over_swd = swd_transport pins

abbrev driven : Swd pins
driven = esp32_dap_proxy.Swd.new pins true

driven-IsReady : IsReady pins drive driven
driven-IsReady = record { output_on = refl; drives = refl; pins_fit = omega arith }

-- A transfer that writes and then reads.
abbrev transfer_request : List ℕ
transfer_request = 0x05 ∷ 0x00 ∷ 2 ∷ 0x00 ∷ 0x1E ∷ 0x00 ∷ 0x00 ∷ 0x00 ∷ 0x02 ∷ []

abbrev commands : Dap over_swd
commands = esp32_dap_proxy.Dap.State.new over_swd driven

handle-Keeps_example :
    (d' : Dap over_swd) × (resp' : List ℕ) × (n : ℕ) × (handle over_swd commands transfer_request
        (replicate 1024 0)
      ≡ some (d', resp', n))
    × IsReady pins drive d'.transport
    × All IsByte resp'
    × (length resp' ≡ 1024)
handle-Keeps_example =
    handle-Keeps over_swd (IsReady pins drive) commands transfer_request (replicate 1024 0)
      (swd-Keeps pins drive) driven-IsReady (ground arith) (zeros-IsByte 1024)
      (length-replicate {A = ℕ} 1024 0)

abbrev probe_at_start : Probe over_swd
probe_at_start = record { transport = driven; deframer = esp32_dap_proxy.Frame.new 1024; sent = [] }

abbrev two_rounds : List (Round over_swd)
two_rounds =
    no_client
    ∷ client (chunk (0xDA ∷ 0x01 ∷ 0x00 ∷ 0x02 ∷ []) ∷ chunk (0xDA ∷ 0x02 ∷ []) ∷ failed ∷ [])
        all_written
    ∷ []

run-Keeps_example :
    KeptRunning over_swd (IsReady pins drive) (run over_swd two_rounds probe_at_start)
run-Keeps_example =
    run-Keeps over_swd (IsReady pins drive) two_rounds probe_at_start (swd-Keeps pins drive)
      driven-IsReady (zeros-IsByte 1024) (tt, ((ground arith, (ground arith, (tt, tt))), tt))
