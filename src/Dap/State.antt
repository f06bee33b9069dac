-- ===== src/Dap/State.antt =====
-- The constants and the state of cmd/dap.rs, with the constants of probe/target/dp.rs that it uses.
use esp32_dap_proxy.Prelude.{ℕ, ◌^◌}
use esp32_dap_proxy.Transport.{Transport}

abbrev pub dp_dpidr : ℕ
dp_dpidr = 0x00

abbrev pub dp_abort : ℕ
dp_abort = 0x00

abbrev pub dp_ctrl_stat : ℕ
dp_ctrl_stat = 0x04

abbrev pub cdbgpwrupreq : ℕ
cdbgpwrupreq = 2 ^ 28

abbrev pub cdbgpwrupack : ℕ
cdbgpwrupack = 2 ^ 29

abbrev pub csyspwrupreq : ℕ
csyspwrupreq = 2 ^ 30

abbrev pub csyspwrupack : ℕ
csyspwrupack = 2 ^ 31

abbrev pub st_ok : ℕ
st_ok = 0x01

abbrev pub st_wait : ℕ
st_wait = 0x02

abbrev pub st_fault : ℕ
st_fault = 0x04

abbrev pub st_proto : ℕ
st_proto = 0x08

-- `Dap`, with the transport's state in place of the reference to it.
pub record Dap (t : Transport) : Type 0 where
  pub transport : t.State
  pub wait_retry : ℕ
  pub err_logs : ℕ

-- `Dap::new`
abbrev pub new : (t : Transport) → t.State → Dap t
new t s = record { transport = s; wait_retry = 64; err_logs = 0 }
