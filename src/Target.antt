-- ===== src/Target.antt =====
-- `main` of esp-daplink-target/src/main.rs from the network on: the wait for an address, the parts of
-- the probe put together, and the task that runs them. Start-up of the board and of the radio is
-- esp-hal's and embassy's; the pins, and what the network stack says of its address, are arguments.
pub mod Boot
mod Tests
use esp32_dap_proxy.Prelude.{ℕ, ◌+◌, Option, none, some, List, [], ◌∷◌}
use esp32_dap_proxy.Tcp
use esp32_dap_proxy.Tcp.{TcpChannel}
use esp32_dap_proxy.Transport.{Transport}
use esp32_dap_proxy.Io.BitBang
use esp32_dap_proxy.Io.BitBang.{Gpio, bit_bang}
use esp32_dap_proxy.Swd
use esp32_dap_proxy.Swd.{Swd, swd_transport}
use esp32_dap_proxy.Run.{Probe, Round, Running, run}

abbrev pub dap_port : ℕ
dap_port = 8080

-- The loop that waits for an address: what `config_v4` says each time, the address if one came, and
-- the milliseconds slept.
abbrev pub and_slept : {Address : Type 0} → Option Address × ℕ → Option Address × ℕ
and_slept (a, ms) = (a, ms + 500)

unfoldable pub wait_for_ip : {Address : Type 0} → List (Option Address) → Option Address × ℕ
wait_for_ip [] = (none, 0)
wait_for_ip (some a ∷ polls) = (some a, 0)
wait_for_ip (none ∷ polls) = and_slept (wait_for_ip polls)

module _ (gpio : Gpio) where
  -- Swd<BitBangIo>
  abbrev pub probe_transport : Transport
  probe_transport = swd_transport (bit_bang gpio)

  -- `swd`, over pins without a reset line.
  unfoldable pub swd : gpio.State → Swd (bit_bang gpio)
  swd pins = esp32_dap_proxy.Swd.new (bit_bang gpio) (esp32_dap_proxy.Io.BitBang.new gpio none pins)

  -- What `dap_tcp_task` is given.
  unfoldable pub task : TcpChannel → Swd (bit_bang gpio) → Probe probe_transport
  task ch transport = record { transport = transport; deframer = ch.deframer; sent = [] }

  -- `main` still waits for an address, or has spawned the task, which runs.
  pub data Program : Type 0 where
    waiting : (ms : ℕ) → Program
    spawned : Running probe_transport → Program

  abbrev pub with_address :
      {Address : Type 0} → Option Address × ℕ → gpio.State → List (Round probe_transport) → Program
  with_address (none, ms) pins rs = waiting ms
  with_address (some a, ms) pins rs =
      spawned (run probe_transport rs (task (esp32_dap_proxy.Tcp.new dap_port) (swd pins)))

  unfoldable pub main :
      {Address : Type 0}
      → List (Option Address)
      → gpio.State
      → List (Round probe_transport)
      → Program
  main polls pins rs = with_address (wait_for_ip polls) pins rs
