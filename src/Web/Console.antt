-- ===== src/Web/Console.antt =====
-- What web.rs shows of the logs and of the link.
use esp32_dap_proxy.Prelude.{
  ℕ, ◌≤◌, ◌≡◌, refl, sym, ap, ◌∙◌, Option, some, List, [], ◌∷◌, ◌++◌, map, length, drop,
}
use mathlib.Core.List.{map-append}
use mathlib.Core.Option
use esp32_dap_proxy.Metrics
use esp32_dap_proxy.Metrics.Rtt.{Rtt}
use esp32_dap_proxy.Logs.{LogEvent, Entry, subscribe}
use esp32_dap_proxy.Logs.Ring.{publish_all, numbered, sent_to}
use esp32_dap_proxy.Logs.Later.{started, subscribe-history}
use esp32_dap_proxy.Web.{event, sse_event, log_history, log_stream}

module _ {ℓ} {Time : Type ℓ} (zero_time : Time) where
  log_stream-event :
      (to_json : LogEvent Time → Option (List ℕ)) (evs : List (LogEvent Time))
      → log_stream zero_time to_json (map (λ ev. event ev) evs)
        ≡ map (sse_event zero_time to_json) evs
  unfolding log_stream
  log_stream-event to_json [] = refl
  log_stream-event to_json (ev ∷ evs) =
      ap (λ xs. sse_event zero_time to_json ev ∷ xs) (log_stream-event to_json evs)

  -- A console that subscribes after the start does not panic, and shows every event once and in order:
  -- the history as it is then, and the stream of what its receiver brings from then on, are the
  -- events published before and after, if no more than 512 were published before, and the receiver
  -- lags behind at no time.
  pub log_stream-numbered :
      (to_json : LogEvent Time → Option (List ℕ)) (before after : List (Entry Time))
      → length before ≤ 512
      → let l = publish_all zero_time before (started zero_time) in
        let l' = publish_all zero_time after l in
        (k : ℕ) × (subscribe l ≡ some k)
        × (map (sse_event zero_time to_json) (log_history zero_time l)
              ++ log_stream zero_time to_json
                  (map (λ ev. event ev) (drop k (sent_to zero_time l'.hub)))
            ≡ map (sse_event zero_time to_json) (numbered zero_time 0 (before ++ after)))
  unfolding log_history
  log_stream-numbered to_json before after room =
      let (k, subscribed, whole) = subscribe-history zero_time before after room in
      let l = publish_all zero_time before (started zero_time) in
      let later = drop k (sent_to zero_time (publish_all zero_time after l).hub) in
      let sse = sse_event zero_time to_json in
      (
        k,
        subscribed,
        ap (λ xs. map sse (log_history zero_time l) ++ xs) (log_stream-event to_json later)
            ∙ sym (map-append sse (log_history zero_time l) later)
            ∙ ap (map sse) whole,
      )
