-- ===== src/Run.antt =====
-- esp-daplink-target/src/channel/mod.rs: `run`, one session after the other over one deframer and one
-- transport.
pub mod Sessions
pub mod Keeps
pub mod Total
pub mod Stale
mod SwdTests
mod Tests
use esp32_dap_proxy.Prelude.{ℕ, suc, List, [], ◌∷◌, ◌++◌, length, replicate}
use esp32_dap_proxy.Frame.{Deframer}
use esp32_dap_proxy.Tcp.{ReadEvent}
use esp32_dap_proxy.Transport.{Transport}
use esp32_dap_proxy.Dap.State.{new}
use esp32_dap_proxy.Dap.Serve.{
  buffer_size, Sending, Session, Ending, ended, waits, panicked, out_of_fuel, serve,
}

module _ (t : Transport) where
  -- What lasts from one session to the next, and what each session has sent so far.
  pub record Probe : Type 0 where
    pub transport : t.State
    pub deframer : Deframer
    pub sent : List (List ℕ)

  -- A round of the loop: `accept` fails, or a client comes, with what its socket brings.
  pub data Round : Type 0 where
    no_client : Round
    client : List ReadEvent → (ℕ → Sending) → Round

  -- Where the loop is when the rounds are used up: in `accept`, or in a session that is not over. A
  -- `serve` that panics or that is short of fuel stops it.
  pub data Running : Type 0 where
    accepting : Probe → Running
    serving : Session t → Running
    stopped : Ending t → Running

  -- The state in which `serve` begins.
  abbrev pub opened : Probe → Session t
  opened p = record {
    dap = new t p.transport;
    deframer = p.deframer;
    resp = replicate buffer_size 0;
    sent = [];
  }

  -- `finish` of tcp.rs aborts the socket, whose reads not yet made are lost, and nothing else.
  abbrev pub finish : Probe → Probe
  finish p = p

  abbrev pub after_serve : Ending t → Probe → (Probe → Running) → Running
  after_serve (ended s es) p next = next (
      finish (record {
        transport = s.dap.transport;
        deframer = s.deframer;
        sent = p.sent ++ (s.sent ∷ []);
      }))
  after_serve (waits s) p next = serving s
  after_serve panicked p next = stopped panicked
  after_serve out_of_fuel p next = stopped out_of_fuel

  -- The loop over the rounds. `serve` has fuel for each read and one more.
  unfoldable pub run : List Round → Probe → Running
  run [] p = accepting p
  run (no_client ∷ rs) p = run rs (finish p)
  run (client es sending ∷ rs) p =
      after_serve (serve t (suc (length es)) sending 0 (opened p) es) p (λ p'. run rs p')
