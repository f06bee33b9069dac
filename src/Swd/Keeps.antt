-- ===== src/Swd/Keeps.antt =====
-- The bus discipline of transport/swd.rs as a property that its methods keep.
use esp32_dap_proxy.Prelude.{ℕ, subst, Result, ok, err}
use esp32_dap_proxy.Prelude.Bytes.{IsByte}
use esp32_dap_proxy.Transport.{TransportError}
use esp32_dap_proxy.Dap.Keeps.{Keeps}
use esp32_dap_proxy.Io.{Io}
use esp32_dap_proxy.Io.Drive.{Drive}
use esp32_dap_proxy.Swd.{Swd, swj_pins, swd_transport}
use esp32_dap_proxy.Swd.Bus.{IsReady, swd-KeepsReady}

abbrev FitsByte : Result ℕ TransportError → Type 0
FitsByte (ok v) = IsByte v
FitsByte (err e) = Unit

module _ (io : Io) (drive : Drive io) where
  swj_pins-FitsByte :
      (out sel wait_ms : ℕ) (s : Swd io)
      → IsReady io drive s
      → FitsByte (swj_pins io out sel wait_ms s).0
  unfolding swj_pins
  swj_pins-FitsByte out sel wait_ms s h =
      ((swd-KeepsReady io drive s h).after_pins out sel wait_ms).pins_fit

  pub swd-Keeps : Keeps (swd_transport io) (IsReady io drive)
  swd-Keeps = record {
    after_init = λ s h. (swd-KeepsReady io drive s h).after_init;
    after_sequence = λ count bytes s h. (swd-KeepsReady io drive s h).after_sequence count bytes;
    after_pins = λ out sel w s h. (swd-KeepsReady io drive s h).after_pins out sel w;
    pins_fit = λ out sel w s h e. subst FitsByte e (swj_pins-FitsByte out sel w s h);
    after_read_dp = λ a s h. (swd-KeepsReady io drive s h).after_read_dp a;
    after_write_dp = λ a v s h. (swd-KeepsReady io drive s h).after_write_dp a v;
    after_read_ap = λ select a s h. (swd-KeepsReady io drive s h).after_read_ap select a;
    after_write_ap = λ select a v s h. (swd-KeepsReady io drive s h).after_write_ap select a v;
  }
