-- ===== src/Logs/Tests.antt =====
-- Events of logs.rs before and after the start.
use esp32_dap_proxy.Prelude.{ℕ, ◌≡◌, ◌≤◌, List, [], ◌∷◌, ◌++◌, length}
use esp32_dap_proxy.Prelude.Text.{codes}
use esp32_dap_proxy.Logs.{Entry, Field, unset, init, history, event_message}
use esp32_dap_proxy.Logs.Ring.{latest, publish_all, numbered, sent_to, history-latest}
use esp32_dap_proxy.Logs.Render.{message_of, others, pairs, event_message-pairs}

abbrev entry : ℕ → Entry ℕ
entry elapsed = record {
  elapsed = elapsed;
  level = codes "INFO";
  target = codes "usbip";
  message = codes "attached";
}

history-latest_example :
    let l =
      publish_all 0 (entry 3 ∷ entry 4 ∷ []) (init 0 (publish_all 0 (entry 1 ∷ []) (unset 0))) in
    (history 0 l ≡ latest (numbered 0 0 (entry 3 ∷ entry 4 ∷ [])))
    × (sent_to 0 l.hub ≡ numbered 0 0 (entry 3 ∷ entry 4 ∷ []))
    × (length (history 0 l) ≤ 512)
history-latest_example = history-latest 0 (entry 1 ∷ []) (entry 3 ∷ entry 4 ∷ [])

abbrev fields : List Field
fields =
    (codes "peer", codes "10.0.0.2")
    ∷ (codes "message", codes "attached")
    ∷ (codes "port", codes "3240")
    ∷ []

event_message-pairs_example : event_message fields ≡ message_of [] fields ++ pairs (others fields)
event_message-pairs_example = event_message-pairs fields
