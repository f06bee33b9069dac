-- ===== src/Tcp.antt =====
-- esp-daplink-target/src/channel/tcp.rs and the `Channel` trait's errors of channel/mod.rs: frames
-- over the TCP socket. The socket is embassy's: what its reads bring is a list of events, in order,
-- and a receive that outlasts the list is still waiting. A write is what it hands to the socket.
pub mod Chunks
pub mod Arrival
pub mod Faults
pub mod Bytes
mod Tests
use esp32_dap_proxy.Prelude.{
  ℕ, Bool, true, false, Option, none, some, List, [], ◌∷◌, ◌++◌, ltb, length, take, if◌then◌else◌,
}
use esp32_dap_proxy.Frame.{Deframer, feed, is_garbage}
use esp32_dap_proxy.Frame.Wire.{head_bytes}

-- channel/mod.rs `Error`
pub data ChannelError : Type 0 where
  accept disconnected garbage frame_too_large : ChannelError

-- What one `socket.read(&mut chunk)` brings: some bytes (none at the end of the stream), or an error.
pub data ReadEvent : Type 0 where
  chunk : List ℕ → ReadEvent
  failed : ReadEvent

-- How a `recv_frame` ends, with the deframer as it leaves it and the reads not yet made.
pub data Recv : Type 0 where
  received : List ℕ → Deframer → List ReadEvent → Recv
  refused : ChannelError → Deframer → List ReadEvent → Recv
  waiting : Deframer → Recv

-- The loop over `chunk[..n]`: up to the first frame, and the bytes that it has not looked at.
abbrev pub Found : Type 0
Found = Deframer × Option (List ℕ) × List ℕ

abbrev pub return_or : Option (List ℕ) → Deframer → List ℕ → Found → Found
return_or (some f) d rest next = (d, some f, rest)
return_or none d rest next = next

unfoldable pub first_frame : ℕ → Deframer → List ℕ → Found
first_frame n d [] = (d, none, [])
first_frame n d (b ∷ bs) =
    let (d', out) = feed n d b in let next = first_frame n d' bs in return_or out d' bs next

-- After the loop. `room` is the length of the caller's buffer; the bytes of the chunk behind its
-- first frame go nowhere.
abbrev pub deliver : ℕ → Found → List ReadEvent → Recv → Recv
deliver room (d, some f, rest) es next =
    if ltb room (length f) then refused frame_too_large d es else received f d es
deliver room (d, none, rest) es next = if is_garbage d then refused garbage d es else next

-- `n` is the deframer's capacity.
unfoldable pub recv_frame : ℕ → ℕ → Deframer → List ReadEvent → Recv
recv_frame n room d [] = waiting d
recv_frame n room d (failed ∷ es) = refused disconnected d es
recv_frame n room d (chunk [] ∷ es) = refused disconnected d es
recv_frame n room d (chunk (b ∷ bs) ∷ es) =
    let found = first_frame n d (b ∷ bs) in
    let next = recv_frame n room found.0 es in deliver room found es next

-- What becomes of one `socket.write_all`: all of the bytes go out, or so many and then an error.
pub data WriteEvent : Type 0 where
  written : WriteEvent
  broken : ℕ → WriteEvent

abbrev pub write_all : WriteEvent → List ℕ → List ℕ × Bool
write_all written bytes = (bytes, true)
write_all (broken k) bytes = (take k bytes, false)

-- The bytes that `send_frame` puts on the wire, and its error. `flushed` is the outcome of the flush.
unfoldable pub send_frame : WriteEvent → WriteEvent → Bool → List ℕ → List ℕ × Option ChannelError
unfolding head_bytes
send_frame first second flushed buf =
    let (head, head_ok) = write_all first (head_bytes (length buf)) in
    let (body, body_ok) = write_all second buf in
    if head_ok
    then (if body_ok
        then (head ++ body, if flushed then none else some disconnected)
        else (head ++ body, some disconnected))
    else (head, some disconnected)

-- `TcpChannel`; the socket is left out.
pub record TcpChannel : Type 0 where
  pub port : ℕ
  pub deframer : Deframer

-- `TcpChannel::new`
unfoldable pub new : ℕ → TcpChannel
new port = record { port = port; deframer = esp32_dap_proxy.Frame.new 1024 }

-- `accept` of the channel, by whether the socket's succeeds: `none` is success.
abbrev pub accept_error : Bool → Option ChannelError
accept_error true = none
accept_error false = some accept
