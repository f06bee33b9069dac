-- ===== src/Run/Keeps.antt =====
-- What the transport keeps, `serve` of cmd/dap.rs and `run` of channel/mod.rs keep.
use esp32_dap_proxy.Prelude.{
  ℕ, zero, suc, ◌+◌, ◌<◌, ◌≡◌, refl, true, false, Option, none, some, List, [], ◌∷◌, ◌++◌, arith,
  length, length-replicate, replicate, take,
}
use esp32_dap_proxy.Prelude.Bytes.{All, IsByte}
use esp32_dap_proxy.Tcp.{
  ChannelError, ReadEvent, Recv, received, refused, waiting, recv_frame, send_frame,
}
use esp32_dap_proxy.Tcp.Faults.{AreBytes}
use esp32_dap_proxy.Tcp.Bytes.{Progress, recv_frame-Progress}
use esp32_dap_proxy.Transport.{Transport}
use esp32_dap_proxy.Dap.Serve.{
  Sending, Session, Ending, ended, waits, panicked, out_of_fuel, Next, after_send, after_recv,
  serve,
}
use esp32_dap_proxy.Dap.Keeps.{Keeps}
use esp32_dap_proxy.Dap.Keeps.Handle.{handle-Keeps}
use esp32_dap_proxy.Run.{
  Probe, Round, no_client, client, Running, accepting, serving, stopped, opened, after_serve, run,
}
use esp32_dap_proxy.Run.Total.{IsRound}

pub zeros-IsByte : (n : ℕ) → All IsByte (replicate n 0)
zeros-IsByte zero = tt
zeros-IsByte (suc n) = (omega arith, zeros-IsByte n)

module _ (t : Transport) (P : t.State → Type 0) where
  -- A session as `serve` keeps it.
  pub record KeptSession (s : Session t) : Type 0 where
    pub transport : P s.dap.transport
    pub buffer : All IsByte s.deframer.buf
    pub resp : All IsByte s.resp
    pub resp_size : length s.resp ≡ 1024

  -- A `serve` that returned or waits leaves the session like that, and there is no other outcome.
  abbrev pub KeptEnding : Ending t → Type 0
  KeptEnding (ended s es) = KeptSession s
  KeptEnding (waits s) = P s.dap.transport
  KeptEnding panicked = true ≡ false
  KeptEnding out_of_fuel = true ≡ false

  abbrev KeptAfter : List ReadEvent → Next t → Type 0
  KeptAfter es next =
      (s : Session t) (es' : List ReadEvent)
      → KeptSession s
      → All AreBytes es'
      → length es' < length es
      → KeptEnding (next s es')

  after_send-Keeps :
      (e : Option ChannelError) (s : Session t) (es : List ReadEvent) (next : Next t)
      → KeptSession s
      → KeptEnding (next s es)
      → KeptEnding (after_send t e s es next)
  after_send-Keeps none s es next h k = k
  after_send-Keeps (some e) s es next h k = h

  after_recv-Keeps :
      (r : Recv) (sending : Sending) (s : Session t) (es : List ReadEvent) (next : Next t)
      → Keeps t P
      → KeptSession s
      → Progress es r
      → KeptAfter es next
      → KeptEnding (after_recv t r sending s next)
  after_recv-Keeps (waiting d) sending s es next kept h p k = h.transport
  after_recv-Keeps (refused e d es') sending s es next kept h p k = record {
    transport = h.transport;
    buffer = p;
    resp = h.resp;
    resp_size = h.resp_size;
  }
  after_recv-Keeps (received f d es') (w₁, w₂, flushed) s es next kept h (bytes, buffer, lt, left)
        k =
      let (dap, resp, n, handled, after, bytes', size) =
        handle-Keeps t P s.dap f s.resp kept h.transport bytes h.resp h.resp_size in
      let (out, failure) = send_frame w₁ w₂ flushed (take n resp) in
      let s' : Session t = record { dap = dap; deframer = d; resp = resp; sent = s.sent ++ out } in
      let h' : KeptSession s' = record {
        transport = after;
        buffer = buffer;
        resp = bytes';
        resp_size = size;
      } in
      rw handled (after_send-Keeps failure s' es' next h' (k s' es' h' left lt))

  pub serve-Keeps :
      (fuel : ℕ) (sending : ℕ → Sending) (k : ℕ) (s : Session t) (es : List ReadEvent)
      → Keeps t P
      → KeptSession s
      → All AreBytes es
      → length es < fuel
      → KeptEnding (serve t fuel sending k s es)
  unfolding serve
  serve-Keeps zero sending k s es kept h b lt = absurd (omega arith)
  serve-Keeps (suc fuel) sending k s es kept h b lt =
      after_recv-Keeps (recv_frame 1024 1024 s.deframer es) (sending k) s es _ kept h
        (recv_frame-Progress 1024 1024 s.deframer es h.buffer b)
        (λ s' es' h' b' lt'. serve-Keeps fuel sending (k + 1) s' es' kept h' b' (omega arith))

  -- The state of the transport, wherever the loop is.
  abbrev pub transport_of : Running t → Option t.State
  transport_of (accepting p) = some p.transport
  transport_of (serving s) = some s.dap.transport
  transport_of (stopped e) = none

  abbrev pub KeptRunning : Running t → Type 0
  KeptRunning r = (s : t.State) × (transport_of r ≡ some s) × P s

  after_serve-Keeps :
      (e : Ending t) (p : Probe t) (next : Probe t → Running t)
      → KeptEnding e
      → ((p' : Probe t) → P p'.transport → All IsByte p'.deframer.buf → KeptRunning (next p'))
      → KeptRunning (after_serve t e p next)
  after_serve-Keeps (ended s es) p next h k = k _ h.transport h.buffer
  after_serve-Keeps (waits s) p next h k = (s.dap.transport, refl, h)
  after_serve-Keeps panicked p next h k = absurd (ground arith)
  after_serve-Keeps out_of_fuel p next h k = absurd (ground arith)

  -- A property of the debug transport that each of its methods keeps holds of it wherever the loop of
  -- the probe is, if it held in the beginning: whatever bytes the clients send in any number of
  -- sessions, whatever the target answers, and whatever becomes of the writes. Pins read under that
  -- property fit a byte, and the deframer's buffer holds bytes.
  pub run-Keeps :
      (rs : List (Round t)) (p : Probe t)
      → Keeps t P
      → P p.transport
      → All IsByte p.deframer.buf
      → All (IsRound t) rs
      → KeptRunning (run t rs p)
  unfolding run
  run-Keeps [] p kept h b k = (p.transport, refl, h)
  run-Keeps (no_client ∷ rs) p kept h b k = run-Keeps rs p kept h b k.1
  run-Keeps (client es sending ∷ rs) p kept h b k =
      let s = opened t p in
      let ready : KeptSession s = record {
        transport = h;
        buffer = b;
        resp = zeros-IsByte 1024;
        resp_size = length-replicate {A = ℕ} 1024 0;
      } in
      after_serve-Keeps (serve t (suc (length es)) sending 0 s es) p _
        (serve-Keeps (suc (length es)) sending 0 s es kept ready k.0 (omega arith))
        (λ p' h' b'. run-Keeps rs p' kept h' b' k.1)
