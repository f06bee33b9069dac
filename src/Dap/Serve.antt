-- ===== src/Dap/Serve.antt =====
-- `serve` of cmd/dap.rs over the TCP channel: requests in and responses out, until an error.
pub mod Exchange
pub mod Total
mod Tests
use esp32_dap_proxy.Prelude.{ℕ, zero, suc, ◌+◌, Bool, Option, none, some, List, ◌++◌, take}
use esp32_dap_proxy.Frame.{Deframer}
use esp32_dap_proxy.Tcp.{
  ChannelError, ReadEvent, Recv, received, refused, waiting, recv_frame, WriteEvent, send_frame,
}
use esp32_dap_proxy.Transport.{Transport}
use esp32_dap_proxy.Dap.State.{Dap}
use esp32_dap_proxy.Dap.Simple.{Reply}
use esp32_dap_proxy.Dap.Handle.{handle}

-- The length of `frame` and of `resp`, and the deframer's capacity, are all this.
abbrev pub buffer_size : ℕ
buffer_size = 1024

-- What becomes of the two writes and the flush of a `send_frame`.
abbrev pub Sending : Type 0
Sending = WriteEvent × WriteEvent × Bool

module _ (t : Transport) where
  -- `sent` is what the socket has been handed.
  pub record Session : Type 0 where
    pub dap : Dap t
    pub deframer : Deframer
    pub resp : List ℕ
    pub sent : List ℕ

  -- `serve` returned, with the reads not yet made; or it waits for bytes; or it panicked; or the fuel
  -- ran out.
  pub data Ending : Type 0 where
    ended : Session → List ReadEvent → Ending
    waits : Session → Ending
    panicked out_of_fuel : Ending

  abbrev pub Next : Type 0
  Next = Session → List ReadEvent → Ending

  abbrev pub after_send : Option ChannelError → Session → List ReadEvent → Next → Ending
  after_send none s es next = next s es
  after_send (some e) s es next = ended s es

  abbrev pub after_handle : Reply t → Sending → Session → List ReadEvent → Next → Ending
  after_handle none sending s es next = panicked
  after_handle (some (dap, resp, n)) (first, second, flushed) s es next =
      let (bytes, failure) = send_frame first second flushed (take n resp) in
      after_send failure (record s { dap = dap; resp = resp; sent = s.sent ++ bytes }) es next

  abbrev pub after_recv : Recv → Sending → Session → Next → Ending
  after_recv (waiting d) sending s next = waits (record s { deframer = d })
  after_recv (refused e d es) sending s next = ended (record s { deframer = d }) es
  after_recv (received f d es) sending s next =
      after_handle (handle t s.dap f s.resp) sending (record s { deframer = d }) es next

  -- The loop, on fuel; `sending` by the number of the response.
  unfoldable pub serve : ℕ → (ℕ → Sending) → ℕ → Session → List ReadEvent → Ending
  serve zero sending k s es = out_of_fuel
  serve (suc fuel) sending k s es =
      after_recv (recv_frame buffer_size buffer_size s.deframer es) (sending k) s
        (λ s' es'. serve fuel sending (k + 1) s' es')
