-- ===== src/Usbip/Stream.antt =====
-- The client's connection of usbip.rs: tokio's `TcpStream`, an argument of what uses it, and what is
-- relied on of it.
use esp32_dap_proxy.Prelude.{
  ℕ, suc, ◌+◌, ◌≤◌, ◌≡◌, Bool, true, false, Option, none, some, List, [], ◌++◌, length,
}

-- The calls, on the state of the connection. `none` and `false` are an error.
pub record TcpStream : Type 1 where
  pub State : Type 0
  pub read_exact : ℕ → State → Option (List ℕ) × State
  pub write_all : List ℕ → State → Bool × State
  pub flush : State → Bool × State

module _ (tcp : TcpStream) where
  abbrev flush_after : Bool × tcp.State → Bool × tcp.State
  flush_after (true, s) = tcp.flush s
  flush_after (false, s) = (false, s)

  -- `write_all` and `flush`, and whether both succeed.
  unfoldable pub write : List ℕ → tcp.State → Bool × tcp.State
  write bytes s = flush_after (tcp.write_all bytes s)

-- A connection on which nothing fails before the client's end. Its state is told by what the client
-- still sends, and by what was written: a read takes as many bytes as it asks for, or reports the
-- end, and a write sends all of its bytes.
pub record Delivers (tcp : TcpStream) : Type 0 where
  pub state : (incoming sent : List ℕ) → tcp.State
  pub read_exact-append :
      (xs ys sent : List ℕ)
      → tcp.read_exact (length xs) (state (xs ++ ys) sent) ≡ (some xs, state ys sent)
  pub read_exact-end :
      (n : ℕ) (sent : List ℕ) → tcp.read_exact (suc n) (state [] sent) ≡ (none, state [] sent)
  pub write_all-state :
      (bytes incoming sent : List ℕ)
      → tcp.write_all bytes (state incoming sent) ≡ (true, state incoming (sent ++ bytes))
  pub flush-state :
      (incoming sent : List ℕ) → tcp.flush (state incoming sent) ≡ (true, state incoming sent)

-- A read that succeeds leaves as much less as it takes.
abbrev pub ReadFrom :
    (tcp : TcpStream) → (tcp.State → ℕ) → ℕ → tcp.State → Option (List ℕ) × tcp.State → Type 0
ReadFrom tcp left n s (none, s') = Unit
ReadFrom tcp left n s (some bytes, s') = left s' + n ≤ left s

-- A client that sends `left` bytes from a state on, whatever fails, and then no more.
pub record Finite (tcp : TcpStream) : Type 0 where
  pub left : tcp.State → ℕ
  pub read_exact-ReadFrom : (n : ℕ) (s : tcp.State) → ReadFrom tcp left n s (tcp.read_exact n s)
  pub left-write_all : (bytes : List ℕ) (s : tcp.State) → left (tcp.write_all bytes s).1 ≤ left s
  pub left-flush : (s : tcp.State) → left (tcp.flush s).1 ≤ left s

pub write-state :
    (tcp : TcpStream) (delivers : Delivers tcp) (bytes incoming sent : List ℕ)
    → write tcp bytes (delivers.state incoming sent)
      ≡ (true, delivers.state incoming (sent ++ bytes))
unfolding write
write-state tcp delivers bytes incoming sent =
    rw (delivers.write_all-state bytes incoming sent)
      (delivers.flush-state incoming (sent ++ bytes))
