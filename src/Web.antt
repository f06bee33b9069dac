-- ===== src/Web.antt =====
-- esp-daplink-host/src/web.rs: what the routes of the web console return. axum, which serves them, and
-- the texts in JSON are left out or an argument; so are the page of the dashboard, the clock, and the
-- f64 that a number of microseconds makes over 1000.0.
pub mod Console
mod Tests
use esp32_dap_proxy.Prelude.{ℕ, Option, none, some, List, [], ◌∷◌, Result, ok, err}
use mathlib.Core.Option
use esp32_dap_proxy.Prelude.Text.{codes}
use esp32_dap_proxy.Link.{LinkError, Net, DapLink}
use esp32_dap_proxy.Link.Text.{display}
use esp32_dap_proxy.Metrics
use esp32_dap_proxy.Metrics.{uptime_secs}
use esp32_dap_proxy.Metrics.Rtt.{Rtt}
use esp32_dap_proxy.Logs.{LogEvent, Logs, history}

pub record WebState : Type 0 where
  pub target : List ℕ
  pub usbip_listen : List ℕ

pub record RttStats (F : Type 0) : Type 0 where
  pub avg_ms : F
  pub last_ms : F
  pub max_ms : F

pub record Counters : Type 0 where
  pub usb_sessions : ℕ
  pub ep0_requests : ℕ
  pub ep1_out_frames : ℕ
  pub ep1_out_bytes : ℕ
  pub ep1_in_frames : ℕ
  pub ep1_in_bytes : ℕ
  pub link_requests : ℕ
  pub link_retries : ℕ
  pub link_errors : ℕ

pub record Status (F : Type 0) : Type 0 where
  pub uptime_secs : ℕ
  pub listen_usbip : List ℕ
  pub target : List ℕ
  pub counters : Counters
  pub rtt : RttStats F
  pub last_link_error : Option (List ℕ)

-- `rtt_us` of each of the three atomics.
unfoldable pub rtt_stats : {F : Type 0} → (ℕ → F) → Rtt → RttStats F
rtt_stats rtt_us m = record {
  avg_ms = rtt_us m.ewma;
  last_ms = rtt_us m.latest;
  max_ms = rtt_us m.largest;
}

-- `metrics::last_link_error`, with the text that was kept.
abbrev pub last_link_error : (net : Net) → List ℕ → DapLink net → Option (List ℕ)
last_link_error net io_text l = Option.map (λ e. display io_text e) l.last_error

-- The route of the status. The counters of the link are those of one link.
unfoldable pub status :
    {F Instant : Type 0}
    → (ℕ → F)
    → (Instant → ℕ)
    → (net : Net) → List ℕ
    → WebState
    → Option Instant
    → esp32_dap_proxy.Metrics.Counters
    → DapLink net
    → Rtt
    → Status F
status rtt_us elapsed net io_text st started c l m = record {
  uptime_secs = uptime_secs elapsed started;
  listen_usbip = st.usbip_listen;
  target = st.target;
  counters = record {
    usb_sessions = c.usb_sessions;
    ep0_requests = c.ep0_requests;
    ep1_out_frames = c.ep1_out_frames;
    ep1_out_bytes = c.ep1_out_bytes;
    ep1_in_frames = c.ep1_in_frames;
    ep1_in_bytes = c.ep1_in_bytes;
    link_requests = l.requests;
    link_retries = l.retries;
    link_errors = l.errors;
  };
  rtt = rtt_stats rtt_us m;
  last_link_error = last_link_error net io_text l;
}

-- An event of the stream that the console reads.
pub record SseEvent : Type 0 where
  pub event : List ℕ
  pub data_text : List ℕ

-- What the receiver brings: an event of the log, or that it was too slow and missed some.
pub data Item {ℓ} (Time : Type ℓ) : Type ℓ where
  event : LogEvent Time → Item Time
  lagged : (missed : ℕ) → Item Time

module _ {ℓ} {Time : Type ℓ} (zero_time : Time) where
  unfoldable pub log_history : Logs Time → List (LogEvent Time)
  log_history l = history zero_time l

  -- `unwrap_or_default` of the text in JSON.
  abbrev pub sse_event : (LogEvent Time → Option (List ℕ)) → LogEvent Time → SseEvent
  sse_event to_json ev = record { event = codes "log"; data_text = Option.get_or (to_json ev) [] }

  -- `filter_map`
  unfoldable pub log_stream : (LogEvent Time → Option (List ℕ)) → List (Item Time) → List SseEvent
  log_stream to_json [] = []
  log_stream to_json (event ev ∷ items) = sse_event to_json ev ∷ log_stream to_json items
  log_stream to_json (lagged missed ∷ items) = log_stream to_json items
