-- ===== src/Run/Stale.antt =====
-- What the deframer of channel/tcp.rs keeps from one session of channel/mod.rs to the next.
use esp32_dap_proxy.Prelude.{ℕ}
use esp32_dap_proxy.Frame.{Deframer, payload}
use esp32_dap_proxy.Transport.{Transport}

-- A deframer that waits for a payload.
abbrev pub expecting : ℕ → Deframer → Deframer
expecting len d = record { buf = d.buf; fill = 0; state = payload len; rejects = d.rejects }
