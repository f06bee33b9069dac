-- ===== src/Dap/Serve/Total.antt =====
-- `serve` of cmd/dap.rs on any reads of bytes.
use esp32_dap_proxy.Prelude.{
  ℕ, zero, suc, ◌+◌, ◌<◌, ◌≡◌, refl, Bool, true, false, Option, none, some, List, arith, length,
  take, ◌++◌,
}
use esp32_dap_proxy.Prelude.Bytes.{All, IsByte}
use esp32_dap_proxy.Tcp.{
  ChannelError, ReadEvent, Recv, received, refused, waiting, recv_frame, send_frame,
}
use esp32_dap_proxy.Tcp.Faults.{AreBytes}
use esp32_dap_proxy.Tcp.Bytes.{Progress, recv_frame-Progress}
use esp32_dap_proxy.Transport.{Transport}
use esp32_dap_proxy.Dap.Handle.Total.{handle-Answered}
use esp32_dap_proxy.Dap.Serve.{
  Sending, Session, Ending, ended, waits, panicked, out_of_fuel, Next, after_send, after_recv,
  serve,
}

module _ (t : Transport) where
  abbrev pub is_settled : Ending t → Bool
  is_settled (ended s es) = true
  is_settled (waits s) = true
  is_settled panicked = false
  is_settled out_of_fuel = false

  -- And the deframer that a `serve` that returns leaves behind holds bytes.
  abbrev KeepsBytes : Ending t → Type 0
  KeepsBytes (ended s es) = All IsByte s.deframer.buf
  KeepsBytes (waits s) = Unit
  KeepsBytes panicked = Unit
  KeepsBytes out_of_fuel = Unit

  abbrev pub Settles : Ending t → Type 0
  Settles e = (is_settled e ≡ true) × KeepsBytes e

  -- What goes on settles, from a session as `serve` keeps it and with fewer reads than these.
  abbrev SettlesAfter : List ReadEvent → Next t → Type 0
  SettlesAfter es next =
      (s : Session t) (es' : List ReadEvent)
      → All IsByte s.deframer.buf
      → length s.resp ≡ 1024
      → All AreBytes es'
      → length es' < length es
      → Settles (next s es')

  after_send-Settles :
      (e : Option ChannelError) (s : Session t) (es : List ReadEvent) (next : Next t)
      → All IsByte s.deframer.buf
      → Settles (next s es)
      → Settles (after_send t e s es next)
  after_send-Settles none s es next b h = h
  after_send-Settles (some e) s es next b h = (refl, b)

  after_recv-Settles :
      (r : Recv) (sending : Sending) (s : Session t) (es : List ReadEvent) (next : Next t)
      → length s.resp ≡ 1024
      → Progress es r
      → SettlesAfter es next
      → Settles (after_recv t r sending s next)
  after_recv-Settles (waiting d) sending s es next size p h = (refl, tt)
  after_recv-Settles (refused e d es') sending s es next size p h = (refl, p)
  after_recv-Settles (received f d es') (w₁, w₂, flushed) s es next size (bytes, kept, lt, left) h =
      let (dap, resp, n, handled, size', _, _) = handle-Answered t s.dap f s.resp bytes size in
      let (out, failure) = send_frame w₁ w₂ flushed (take n resp) in
      rw handled (
        after_send-Settles failure _ es' next kept (
          h (record { dap = dap; deframer = d; resp = resp; sent = s.sent ++ out }) es' kept size'
            left lt))

  -- On any reads of bytes, whatever the target answers and whatever becomes of the writes, `serve`
  -- returns or waits for more, with a round for each read and one more as fuel.
  pub serve-Settles :
      (fuel : ℕ) (sending : ℕ → Sending) (k : ℕ) (s : Session t) (es : List ReadEvent)
      → All IsByte s.deframer.buf
      → length s.resp ≡ 1024
      → All AreBytes es
      → length es < fuel
      → Settles (serve t fuel sending k s es)
  unfolding serve
  serve-Settles zero sending k s es h size b lt = absurd (omega arith)
  serve-Settles (suc fuel) sending k s es h size b lt =
      after_recv-Settles (recv_frame 1024 1024 s.deframer es) (sending k) s es _ size
        (recv_frame-Progress 1024 1024 s.deframer es h b)
        (λ s' es' h' size' b' lt'.
          serve-Settles fuel sending (k + 1) s' es' h' size' b' (omega arith))
