-- ===== src/Frame.antt =====
-- esp-daplink-target/src/channel/frame.rs: the deframer of the TCP byte stream. A frame is the byte
-- 0xDA, the payload's length in two bytes, low byte first, and the payload.
-- `feed` returns the next state and the frame that the byte completes, if any. The buffer is a list
-- of `n` bytes, `n` the const parameter of `Deframer<N>`; `usize` has 32 bits.
pub mod Wire
pub mod Valid
pub mod Payload
pub mod RoundTrip
mod Tests
use esp32_dap_proxy.Prelude.{
  ℕ, zero, suc, ◌+◌, ◌-◌, ◌*◌, ◌%◌, ◌^◌, min, bit_or, Bool, true, false, Option, none, some, List,
  [], ◌∷◌, ltb, ◌==◌, if◌then◌else◌, length, set, take, replicate,
}
use esp32_dap_proxy.Prelude.Bytes.{usize_mod}

abbrev pub frame_magic : ℕ
frame_magic = 0xDA

abbrev pub max_rejects : ℕ
max_rejects = 128

pub data RxState : Type 0 where
  magic : RxState
  len_lo : RxState
  len_hi : ℕ → RxState
  payload : ℕ → RxState

pub record Deframer : Type 0 where
  pub buf : List ℕ
  pub fill : ℕ
  pub state : RxState
  pub rejects : ℕ

-- `Deframer::<N>::new`
abbrev pub new : ℕ → Deframer
new n = record { buf = replicate n 0; fill = 0; state = magic; rejects = 0 }

abbrev pub is_garbage : Deframer → Bool
is_garbage d = ltb max_rejects d.rejects

-- `usize` arithmetic wraps.
abbrev pub add_usize : ℕ → ℕ → ℕ
add_usize a b = (a + b) % usize_mod

abbrev pub sub_usize : ℕ → ℕ → ℕ
sub_usize a b = (a + usize_mod - b) % usize_mod

-- The arms of `feed`, by the state.
unfoldable pub feed_magic : Deframer → ℕ → Deframer × Option (List ℕ)
feed_magic d byte =
    if byte == frame_magic
    then (record d { state = len_lo }, none)
    else (record d { rejects = add_usize d.rejects 1 }, none)

unfoldable pub feed_len_hi : Deframer → ℕ → ℕ → Deframer × Option (List ℕ)
feed_len_hi d lo byte =
    let len = bit_or lo (byte * 2 ^ 8) in
    (record d { fill = 0; state = if len == 0 then magic else payload len }, none)

unfoldable pub feed_payload : ℕ → Deframer → ℕ → ℕ → Deframer × Option (List ℕ)
feed_payload n d left byte =
    let buf' = if ltb d.fill n then set d.buf d.fill byte else d.buf in
    let fill' = add_usize d.fill 1 in
    if left == 1
    then (
      record { buf = buf'; fill = fill'; state = magic; rejects = 0 },
      some (take (min fill' n) buf'),
    )
    else (
      record { buf = buf'; fill = fill'; state = payload (sub_usize left 1); rejects = d.rejects },
      none,
    )

abbrev pub dispatch : ℕ → Deframer → RxState → ℕ → Deframer × Option (List ℕ)
dispatch n d magic byte = feed_magic d byte
dispatch n d len_lo byte = (record d { state = len_hi byte }, none)
dispatch n d (len_hi lo) byte = feed_len_hi d lo byte
dispatch n d (payload left) byte = feed_payload n d left byte

unfoldable pub feed : ℕ → Deframer → ℕ → Deframer × Option (List ℕ)
unfolding feed_magic feed_len_hi feed_payload
feed n d byte = dispatch n d d.state byte

abbrev pub cons_some {ℓ} : {A : Type ℓ} → Option A → List A → List A
cons_some none xs = xs
cons_some (some x) xs = x ∷ xs

-- The deframer over a stretch of bytes: the state after them and the frames that they complete.
unfoldable pub feed_all : ℕ → Deframer → List ℕ → Deframer × List (List ℕ)
feed_all n d [] = (d, [])
feed_all n d (b ∷ bs) =
    let (d', out) = feed n d b in
    let (d'', frames) = feed_all n d' bs in (d'', cons_some out frames)
