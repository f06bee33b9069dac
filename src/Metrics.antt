-- ===== src/Metrics.antt =====
-- esp-daplink-host/src/metrics.rs: the counters that the USB/IP server keeps (those of the link are
-- fields of `DapLink`), and in Metrics.Rtt the round-trip times.
pub mod Rtt
use esp32_dap_proxy.Prelude.{ℕ, ◌+◌, ◌%◌, ◌^◌, Option, none, some}

-- `fetch_add` on an `AtomicU64` wraps.
abbrev pub add : ℕ → ℕ → ℕ
add c n = (c + n) % 2 ^ 64

abbrev pub bump : ℕ → ℕ
bump c = add c 1

pub record Counters : Type 0 where
  pub usb_sessions : ℕ
  pub ep0_requests : ℕ
  pub ep1_out_frames : ℕ
  pub ep1_out_bytes : ℕ
  pub ep1_in_frames : ℕ
  pub ep1_in_bytes : ℕ

abbrev pub zeroed : Counters
zeroed = record {
  usb_sessions = 0;
  ep0_requests = 0;
  ep1_out_frames = 0;
  ep1_out_bytes = 0;
  ep1_in_frames = 0;
  ep1_in_bytes = 0;
}

-- The static START; the lock is never poisoned, as nothing panics that holds it.
abbrev pub mark_start : {Instant : Type 0} → Instant → Option Instant → Option Instant
mark_start now slot = some now

-- `elapsed` counts the seconds since an instant.
abbrev pub uptime_secs : {Instant : Type 0} → (Instant → ℕ) → Option Instant → ℕ
uptime_secs elapsed none = 0
uptime_secs elapsed (some t) = elapsed t
