-- ===== src/Web/Tests.antt =====
-- Runs of the web console: two events around a subscription, and two requests that find nobody.
use esp32_dap_proxy.Prelude.{ℕ, ◌≡◌, some, List, [], ◌∷◌, ◌++◌, map, err, ok, arith, drop}
use esp32_dap_proxy.Prelude.Text.{codes}
use esp32_dap_proxy.Link.{Net, timed_out, end_of_stream}
use esp32_dap_proxy.Metrics.Rtt.{Rtt}
use esp32_dap_proxy.Logs.{Entry, LogEvent, subscribe}
use esp32_dap_proxy.Logs.Ring.{publish_all, numbered, sent_to}
use esp32_dap_proxy.Logs.Later.{started}
use esp32_dap_proxy.Web.{WebState, event, sse_event, log_history, log_stream}
use esp32_dap_proxy.Web.Console.{log_stream-numbered}

abbrev entry : ℕ → Entry ℕ
entry elapsed = record {
  elapsed = elapsed;
  level = codes "INFO";
  target = codes "usbip";
  message = codes "attached";
}

log_stream-numbered_example :
    let l = publish_all 0 (entry 1 ∷ []) (started 0) in
    let l' = publish_all 0 (entry 2 ∷ []) l in
    let json = λ (ev : LogEvent ℕ). some ev.message in
    (k : ℕ) × (subscribe l ≡ some k)
    × (map (sse_event 0 json) (log_history 0 l)
          ++ log_stream 0 json (map (λ ev. event ev) (drop k (sent_to 0 l'.hub)))
        ≡ map (sse_event 0 json) (numbered 0 0 (entry 1 ∷ entry 2 ∷ [])))
log_stream-numbered_example =
    log_stream-numbered 0 (λ ev. some ev.message) (entry 1 ∷ []) (entry 2 ∷ []) (omega arith)

abbrev net : Net
net = record {
  World = Unit {0};
  Stream = Unit {0};
  connect = λ w. (err timed_out, w);
  read_exact = λ n s. (err end_of_stream, s);
  write_all = λ bytes s. (ok tt, s);
}

abbrev web_state : WebState
web_state = record { target = codes "10.0.0.2:8080"; usbip_listen = codes "0.0.0.0:3240" }

abbrev no_samples : Rtt
no_samples = record { latest = 0; ewma = 0; largest = 0 }

abbrev payloads : List (List ℕ)
payloads = (0x02 ∷ []) ∷ (0x03 ∷ []) ∷ []
