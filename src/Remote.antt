-- ===== src/Remote.antt =====
-- The host's link (esp-daplink-host/src/link.rs) and the probe's `serve`
-- (esp-daplink-target/src/cmd/dap.rs) at the two ends of one connection. The network cuts what is
-- written into reads, and loses nothing.
pub mod Command
pub mod Read
pub mod Register
mod SwdTests
pub mod Usb
mod Tests
use esp32_dap_proxy.Prelude.{
  ℕ, suc, ◌≤◌, ◌≡◌, Bool, true, List, [], Result, ok, err, leb, if◌then◌else◌, length, take, drop,
}
use esp32_dap_proxy.Prelude.Bytes.{All}
use esp32_dap_proxy.Frame.{max_rejects}
use esp32_dap_proxy.Frame.Payload.{Idle}
use esp32_dap_proxy.Tcp.Chunks.{joined, reads}
use esp32_dap_proxy.Transport.{Transport}
use esp32_dap_proxy.Dap.Serve.{Session, Ending, ended, waits, panicked, out_of_fuel, serve}
use esp32_dap_proxy.Run.Sessions.{all_written}
use esp32_dap_proxy.Link.{Net, Failure, end_of_stream, timed_out}

pub record Network : Type 0 where
  pub cut : List ℕ → List (List ℕ)
  pub joined-cut : (bytes : List ℕ) → joined (cut bytes) ≡ bytes
  pub cut-full : (bytes : List ℕ) → All (λ c. 1 ≤ length c) (cut bytes)

module _ (t : Transport) (network : Network) where
  abbrev pub after_reads : Ending t → Session t → Result (Unit {0}) Failure × Session t
  after_reads (waits s) before = (ok tt, s)
  after_reads (ended s es) before = (err end_of_stream, s)
  after_reads panicked before = (err timed_out, before)
  after_reads out_of_fuel before = (err timed_out, before)

  -- The probe runs on the bytes until it waits for more.
  unfoldable pub deliver : List ℕ → Session t → Result (Unit {0}) Failure × Session t
  deliver bytes s =
      let cuts = network.cut bytes in
      after_reads (serve t (suc (suc (length cuts))) all_written 0 s (reads cuts)) s

  -- A read of bytes that do not come runs into its time limit.
  abbrev pub take_sent : ℕ → Session t → Result (List ℕ) Failure × Session t
  take_sent n s =
      if leb n (length s.sent)
      then (ok (take n s.sent), record s { sent = drop n s.sent })
      else (err timed_out, s)

  -- A connection is the session of the probe at its other end; what that has sent and the host has
  -- not read is under way. To connect opens a session.
  abbrev pub probe_net : Net
  probe_net = record {
    World = Session t;
    Stream = Session t;
    connect = λ w. (ok w, w);
    read_exact = take_sent;
    write_all = deliver;
  }

  -- A session that waits for a request, with nothing under way.
  pub record IsReady (s : Session t) : Type 0 where
    pub idle : Idle 1024 s.deframer
    pub low : s.deframer.rejects ≤ max_rejects
    pub size : length s.resp ≡ 1024
    pub read : s.sent ≡ []
