-- ===== src/Logs.antt =====
-- esp-daplink-host/src/logs.rs: the latest log events, kept for the web console. A text is the list of
-- its characters. The clock is an argument, and so are the texts that tracing makes of the values.
-- The lock of the ring is never poisoned, as nothing panics that holds it.
pub mod Ring
pub mod Later
pub mod Render
mod Tests
use esp32_dap_proxy.Prelude.{
  ℕ, ◌+◌, ◌%◌, ◌^◌, Option, none, some, List, [], ◌∷◌, ◌++◌, leb, if◌then◌else◌, length, drop, Bool,
  true, false,
}
use esp32_dap_proxy.Prelude.Text.{codes, text_eq}

abbrev pub ring_capacity : ℕ
ring_capacity = 512

pub record LogEvent {ℓ} (Time : Type ℓ) : Type ℓ where
  pub seq : ℕ
  pub ts : Time
  pub level : List ℕ
  pub target : List ℕ
  pub message : List ℕ

-- The arguments of a `publish`, and the time since the start at which it happens.
pub record Entry {ℓ} (Time : Type ℓ) : Type ℓ where
  pub elapsed : Time
  pub level : List ℕ
  pub target : List ℕ
  pub message : List ℕ

-- `sent` is what went to the broadcast channel.
pub record Hub {ℓ} (Time : Type ℓ) : Type ℓ where
  pub ring : List (LogEvent Time)
  pub sent : List (LogEvent Time)

-- The statics HUB, SEQ and START, the last by whether it is set.
pub record Logs {ℓ} (Time : Type ℓ) : Type ℓ where
  pub hub : Option (Hub Time)
  pub seq : ℕ
  pub started : Bool

module _ {ℓ} {Time : Type ℓ} (zero_time : Time) where
  abbrev pub unset : Logs Time
  unset = record { hub = none; seq = 0; started = false }

  -- A `OnceLock` keeps the value that it has.
  abbrev pub set_once : Option (Hub Time) → Option (Hub Time)
  set_once none = some (record { ring = []; sent = [] })
  set_once (some h) = some h

  unfoldable pub init : Logs Time → Logs Time
  init l = record l { hub = set_once l.hub; started = true }

  -- `pop_front` when it is full, and `push_back`
  abbrev pub push : List (LogEvent Time) → LogEvent Time → List (LogEvent Time)
  push ring ev = (if leb ring_capacity (length ring) then drop 1 ring else ring) ++ (ev ∷ [])

  abbrev pub event : Bool → ℕ → Entry Time → LogEvent Time
  event started seq e = record {
    seq = seq;
    ts = if started then e.elapsed else zero_time;
    level = e.level;
    target = e.target;
    message = e.message;
  }

  abbrev pub publish_to : Option (Hub Time) → Entry Time → Logs Time → Logs Time
  publish_to none e l = l
  publish_to (some h) e l =
      let ev = event l.started l.seq e in
      record l {
        hub = some (record { ring = push h.ring ev; sent = h.sent ++ (ev ∷ []) });
        seq = (l.seq + 1) % 2 ^ 64;
      }

  unfoldable pub publish : Entry Time → Logs Time → Logs Time
  publish e l = publish_to l.hub e l

  abbrev pub history_of : Option (Hub Time) → List (LogEvent Time)
  history_of none = []
  history_of (some h) = h.ring

  unfoldable pub history : Logs Time → List (LogEvent Time)
  history l = history_of l.hub

-- A field of an event: its name, and the text of its value.
abbrev pub Field : Type 0
Field = List ℕ × List ℕ

pub record FieldCollector : Type 0 where
  pub message : List ℕ
  pub extra : List Field

-- `record_debug` and `record_str`, which differ in how the text is made.
abbrev pub record_field : FieldCollector → Field → FieldCollector
record_field v (name, text) =
    if text_eq name (codes "message")
    then record v { message = text }
    else record v { extra = v.extra ++ ((name, text) ∷ []) }

-- `event.record(&mut v)`
abbrev pub collect : FieldCollector → List Field → FieldCollector
collect v [] = v
collect v (f ∷ fs) = collect (record_field v f) fs

-- The loop over the fields.
abbrev pub push_fields : List ℕ → List Field → List ℕ
push_fields m [] = m
push_fields m ((k, val) ∷ fs) = push_fields (m ++ (k ++ (codes "=" ++ (val ++ codes " ")))) fs

-- `String::pop`
abbrev pub pop_cons : ℕ → List ℕ → List ℕ
pop_cons c [] = []
pop_cons c (d ∷ ds) = c ∷ pop_cons d ds

abbrev pub pop : List ℕ → List ℕ
pop [] = []
pop (c ∷ cs) = pop_cons c cs

abbrev pub append_extra : List ℕ → List Field → List ℕ
append_extra m [] = m
append_extra m (f ∷ fs) = pop (push_fields (m ++ codes " ") (f ∷ fs))

unfoldable pub event_message : List Field → List ℕ
event_message fields =
    let v = collect (record { message = []; extra = [] }) fields in append_extra v.message v.extra

-- `on_event` of the layer.
unfoldable pub on_event {ℓ} :
    {Time : Type ℓ}
    → (zero_time elapsed : Time) (level target : List ℕ) → List Field
    → Logs Time
    → Logs Time
on_event zero_time elapsed level target fields l =
    publish zero_time
      (record { elapsed = elapsed; level = level; target = target; message = event_message fields })
      l

-- What a receiver of the channel is handed out for: the events sent from this one on.
abbrev pub subscribe_to {ℓ} : {Time : Type ℓ} → Option (Hub Time) → Option ℕ
subscribe_to none = none
subscribe_to (some h) = some (length h.sent)

-- `none` is the panic of `expect`.
unfoldable pub subscribe {ℓ} : {Time : Type ℓ} → Logs Time → Option ℕ
subscribe l = subscribe_to l.hub
