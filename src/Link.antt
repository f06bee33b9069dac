-- ===== src/Link.antt =====
-- esp-daplink-host/src/link.rs: the host's end of the TCP link. Connections, and the reads and writes
-- on them with their time limits, are tokio's and an argument here; of the metrics, the counters and
-- the last error are kept, and the round-trip times left out.
pub mod Frames
pub mod Account
pub mod Count
pub mod Errors
pub mod Kept
pub mod Exchange
pub mod Text
mod Tests
use esp32_dap_proxy.Prelude.{
  ℕ, zero, suc, ◌+◌, ◌*◌, ◌%◌, ◌^◌, bit_or, Option, none, some, List, [], ◌∷◌, Result, ok, err, ltb,
  ◌==◌, if◌then◌else◌, length,
}
use esp32_dap_proxy.Frame.{frame_magic}
use esp32_dap_proxy.Frame.Wire.{encode}

abbrev pub max_frame : ℕ
max_frame = 4096

pub data LinkError : Type 0 where
  io disconnected timeout : LinkError
  frame_too_large : ℕ → LinkError
  garbage : LinkError

-- How an operation on a connection fails: the time limit, the end of the stream, or another error.
pub data Failure : Type 0 where
  timed_out end_of_stream other : Failure

pub record Net : Type 1 where
  pub World : Type 0
  pub Stream : Type 0
  pub connect : World → Result Stream Failure × World
  pub read_exact : ℕ → Stream → Result (List ℕ) Failure × Stream
  pub write_all : List ℕ → Stream → Result (Unit {0}) Failure × Stream

-- The errors that the link makes of the failures.
abbrev pub write_error : Failure → LinkError
write_error timed_out = timeout
write_error end_of_stream = io
write_error other = io

abbrev pub read_error : Failure → LinkError
read_error timed_out = timeout
read_error end_of_stream = disconnected
read_error other = io

abbrev pub map_err : {A : Type 0} → (Failure → LinkError) → Result A Failure → Result A LinkError
map_err f (ok a) = ok a
map_err f (err e) = err (f e)

-- `byte[0]`, and `len[0] as usize | ((len[1] as usize) << 8)`
abbrev pub byte_of : List ℕ → ℕ
byte_of (b ∷ bs) = b
byte_of [] = 0

abbrev pub length_of : List ℕ → ℕ
length_of (lo ∷ hi ∷ bs) = bit_or lo (hi * 2 ^ 8)
length_of _ = 0

module _ (net : Net) where
  open net use {World, Stream}

  pub record DapLink : Type 0 where
    pub world : World
    pub stream : Option Stream
    pub requests : ℕ
    pub retries : ℕ
    pub errors : ℕ
    pub last_error : Option LinkError

  -- `DapLink::new`
  abbrev pub new : World → DapLink
  new w = record {
    world = w;
    stream = none;
    requests = 0;
    retries = 0;
    errors = 0;
    last_error = none;
  }

  abbrev pub Done : Type 0 → Type 0
  Done A = Result A LinkError × DapLink

  -- `?`
  abbrev pub and_then : {A B : Type 0} → Done A → (A → DapLink → Done B) → Done B
  and_then (ok a, l) f = f a l
  and_then (err e, l) f = (err e, l)

  abbrev pub disconnect : DapLink → DapLink
  disconnect l = record l { stream = none }

  abbrev pub connected : Result Stream Failure × World → DapLink → Done (Unit {0})
  connected (ok s, w) l = (ok tt, record l { world = w; stream = some s })
  connected (err e, w) l = (err (write_error e), record l { world = w })

  unfoldable pub connect : DapLink → Done (Unit {0})
  connect l = connected (net.connect l.world) l

  abbrev pub ensure_with : Option Stream → DapLink → Done (Unit {0})
  ensure_with none l = connect l
  ensure_with (some s) l = (ok tt, l)

  unfoldable pub ensure : DapLink → Done (Unit {0})
  ensure l = ensure_with l.stream l

  abbrev pub read_with : Option Stream → ℕ → DapLink → Done (List ℕ)
  read_with none n l = (err disconnected, l)
  read_with (some s) n l =
      let (r, s') = net.read_exact n s in (map_err read_error r, record l { stream = some s' })

  unfoldable pub read_exact : ℕ → DapLink → Done (List ℕ)
  read_exact n l = read_with l.stream n l

  abbrev pub write_with : Option Stream → List ℕ → DapLink → Done (Unit {0})
  write_with none bytes l = (err disconnected, l)
  write_with (some s) bytes l =
      let (r, s') = net.write_all bytes s in (map_err write_error r, record l { stream = some s' })

  unfoldable pub write_all : List ℕ → DapLink → Done (Unit {0})
  write_all bytes l = write_with l.stream bytes l

  -- The loop of `read_frame`; `n` is `MAX_FRAME - skipped`.
  unfoldable pub skip : ℕ → DapLink → Done (Unit {0})
  skip zero l =
      and_then (read_exact 1 l)
        λ byte l'. if byte_of byte == frame_magic then (ok tt, l') else (err garbage, l')
  skip (suc n) l =
      and_then (read_exact 1 l)
        λ byte l'. let next = skip n l' in if byte_of byte == frame_magic then (ok tt, l') else next

  -- From the length on.
  unfoldable pub read_payload : DapLink → Done (List ℕ)
  read_payload l = and_then (read_exact 2 l) λ len l'.
      let n = length_of len in
      if ltb max_frame n then (err (frame_too_large n), l') else read_exact n l'

  unfoldable pub read_frame : DapLink → Done (List ℕ)
  read_frame l = and_then (skip max_frame l) λ _ l'. read_payload l'

  -- A failed write or read drops the connection.
  abbrev pub or_disconnect : Done (List ℕ) → Done (List ℕ)
  or_disconnect (ok resp, l) = (ok resp, l)
  or_disconnect (err e, l) = (err e, disconnect l)

  unfoldable pub try_request : List ℕ → DapLink → Done (List ℕ)
  try_request payload l =
      and_then (ensure l)
        λ _ l₁. or_disconnect (and_then (write_all (encode payload) l₁) λ _ l₂. read_frame l₂)

  -- `metrics::note_link_error`; the error stands for its text.
  abbrev pub note_link_error : LinkError → DapLink → DapLink
  note_link_error e l = record l { errors = (l.errors + 1) % 2 ^ 64; last_error = some e }

  abbrev pub noted : Done (List ℕ) → Done (List ℕ)
  noted (ok resp, l) = (ok resp, l)
  noted (err e, l) = (err e, note_link_error e l)

  abbrev pub retry : List ℕ → Done (List ℕ) → Done (List ℕ)
  retry payload (ok resp, l) = (ok resp, l)
  retry payload (err e, l) =
      let l₁ = disconnect (record l { retries = (l.retries + 1) % 2 ^ 64 }) in
      and_then (connect l₁) λ _ l₂. noted (try_request payload l₂)

  unfoldable pub request : List ℕ → DapLink → Done (List ℕ)
  request payload l =
      if ltb max_frame (length payload)
      then (err (frame_too_large (length payload)), l)
      else retry payload (try_request payload (record l { requests = (l.requests + 1) % 2 ^ 64 }))
