-- ===== src/Wifi.antt =====
-- `connection` of esp-daplink-target/src/main.rs: the task that keeps the probe in its network. The
-- controller of esp-radio is an argument: what its calls bring is a list of events, each of the kind
-- that the task waits for.
pub mod Reconnect
mod Tests
use esp32_dap_proxy.Prelude.{ℕ, ◌+◌, Bool, true, false}

-- The task is in `connect_async`, or waits until it is no longer connected.
pub data Phase : Type 0 where
  connecting connected : Phase

-- What `select` brings: the end of the connection or an event of the access point, or an error in
-- place of it.
pub data Notice : Type 0 where
  station_disconnected access_point : (is_ok : Bool) → Notice

pub data Event : Phase → Type 0 where
  joined refused : Event connecting
  notice : Notice → Event connected

-- The inner loop ends with the first notice of a disconnection.
abbrev pub after_notice : Notice → Phase
after_notice (station_disconnected true) = connecting
after_notice (station_disconnected false) = connected
after_notice (access_point is_ok) = connected

-- The next phase, and the milliseconds that the task sleeps.
unfoldable pub step : (p : Phase) → Event p → Phase × ℕ
step connecting joined = (connected, 0)
step connecting refused = (connecting, 5000)
step connected (notice n) = (after_notice n, 0)

-- The events from one phase to another.
pub data Trace : Phase → Phase → Type 0 where
  done : {p : Phase} → Trace p p
  next : {p q : Phase} → (e : Event p) → Trace (step p e).0 q → Trace p q
