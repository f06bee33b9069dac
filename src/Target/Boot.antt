-- ===== src/Target/Boot.antt =====
-- The probe's program from its start.
use esp32_dap_proxy.Prelude.{ℕ, ◌*◌, ◌≡◌, refl, Option, none, some, List, [], ◌∷◌, arith, length}
use esp32_dap_proxy.Prelude.Bytes.{All}
use esp32_dap_proxy.Tcp
use esp32_dap_proxy.Io.BitBang.{Gpio, bit_bang}
use esp32_dap_proxy.Io.BitBang.Enable.{Enable, bit_bang_drive, enabled-new}
use esp32_dap_proxy.Swd.{Swd}
use esp32_dap_proxy.Swd.Bus.{IsReady}
use esp32_dap_proxy.Swd.Keeps.{swd-Keeps}
use esp32_dap_proxy.Run.{Round}
use esp32_dap_proxy.Run.Total.{IsRound}
use esp32_dap_proxy.Run.Keeps.{zeros-IsByte, KeptRunning, run-Keeps}
use esp32_dap_proxy.Target.{
  wait_for_ip, and_slept, probe_transport, swd, task, Program, waiting, spawned, with_address, main,
}

-- No address has come, after as many waits.
abbrev pub NoAddress : {Address : Type 0} → List (Option Address) → ℕ → Type 0
NoAddress polls ms = All (λ p. p ≡ none) polls × (ms ≡ 500 * length polls)

abbrev Waited : {Address : Type 0} → List (Option Address) → Option Address × ℕ → Type 0
Waited polls (none, ms) = NoAddress polls ms
Waited polls (some a, ms) = Unit

and_slept-Waited :
    {Address : Type 0} (polls : List (Option Address)) (r : Option Address × ℕ)
    → Waited polls r
    → Waited (none ∷ polls) (and_slept r)
and_slept-Waited polls (none, ms) h = ((refl, h.0), omega (arith, h.1))
and_slept-Waited polls (some a, ms) h = tt

wait_for_ip-Waited :
    {Address : Type 0} (polls : List (Option Address)) → Waited polls (wait_for_ip polls)
unfolding wait_for_ip
wait_for_ip-Waited [] = (tt, omega arith)
wait_for_ip-Waited (some a ∷ polls) = tt
wait_for_ip-Waited (none ∷ polls) =
    and_slept-Waited polls (wait_for_ip polls) (wait_for_ip-Waited polls)

module _ (gpio : Gpio) (enable : Enable gpio) where
  -- The transport drives its data line, as the output enable of SWDIO and its own flag say.
  abbrev pub IsDriven : Swd (bit_bang gpio) → Type 0
  IsDriven s = IsReady (bit_bang gpio) (bit_bang_drive gpio enable) s

  swd-IsDriven : (pins : gpio.State) → IsDriven (swd gpio pins)
  unfolding swd
  swd-IsDriven pins = record {
    output_on = enabled-new gpio enable none pins;
    drives = refl;
    pins_fit = omega arith;
  }

  -- The program is up, and its bus is driven, or no address has come.
  abbrev pub IsUp : {Address : Type 0} → List (Option Address) → Program gpio → Type 0
  IsUp polls (waiting ms) = NoAddress polls ms
  IsUp polls (spawned r) = KeptRunning (probe_transport gpio) IsDriven r

  with_address-IsUp :
      {Address : Type 0} (polls : List (Option Address)) (r : Option Address × ℕ)
      (pins : gpio.State) (rs : List (Round (probe_transport gpio)))
      → Waited polls r
      → All (IsRound (probe_transport gpio)) rs
      → IsUp polls (with_address gpio r pins rs)
  unfolding task esp32_dap_proxy.Tcp.new
  with_address-IsUp polls (none, ms) pins rs h b = h
  with_address-IsUp polls (some a, ms) pins rs h b =
      run-Keeps (probe_transport gpio) IsDriven rs _
        (swd-Keeps (bit_bang gpio) (bit_bang_drive gpio enable)) (swd-IsDriven pins)
        (zeros-IsByte 1024) b

  -- From its start, with whatever pins and whatever the target on them answers, and whatever bytes
  -- any number of clients send: the program waits for an address, half a second for each time that
  -- there is none, or the loop of its sessions goes on. Then, wherever the loop waits, the output of
  -- SWDIO is enabled and the transport's flag says so, and the pins that it reports fit a byte. The
  -- output enable of SWDIO is what `set_output_enable` last made it; the methods that set SWCLK,
  -- SWDIO and the reset line keep it.
  pub main-IsUp :
      {Address : Type 0} (polls : List (Option Address)) (pins : gpio.State)
      (rs : List (Round (probe_transport gpio)))
      → All (IsRound (probe_transport gpio)) rs
      → IsUp polls (main gpio polls pins rs)
  unfolding main
  main-IsUp polls pins rs b =
      with_address-IsUp polls (wait_for_ip polls) pins rs (wait_for_ip-Waited polls) b
