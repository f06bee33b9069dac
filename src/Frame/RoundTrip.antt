-- ===== src/Frame/RoundTrip.antt =====
-- What the deframer of channel/frame.rs makes of the wire form of a frame.
use esp32_dap_proxy.Prelude.{
  ℕ, ◌+◌, ◌*◌, ◌/◌, ◌%◌, ◌^◌, ◌≤◌, ◌<◌, ◌≡◌, refl, sym, Option, none, some, List, [], ◌∷◌, ◌++◌,
  map, arith, min, length, take, take_all, ◌==◌, false, bit_and, bit_or, ◌≢◌,
}
use esp32_dap_proxy.Prelude.Bits.{or-field, and-byte}
use esp32_dap_proxy.Prelude.Bytes.{All}
use esp32_dap_proxy.Frame.{magic, len_hi, payload, Deframer, feed, feed_all, frame_magic, cons_some}
use esp32_dap_proxy.Frame.Wire.{encode, head_bytes}
use esp32_dap_proxy.Frame.Payload.{Idle, Completes, feed_payload_all}

-- The last byte of the length.
pub feed_len :
    (n len : ℕ) (d : Deframer)
    → d.state ≡ len_hi (bit_and len 0xff % 256)
    → 1 ≤ len
    → len < 65536
    → feed n d (len / 256 % 256)
      ≡ (record { buf = d.buf; fill = 0; state = payload len; rejects = d.rejects }, none)
unfolding feed
feed_len n len d h l w =
    let lo : bit_and len 0xff % 256 ≡ len % 256 = omega (arith, and-byte len) in
    let joined : bit_or (len % 256) (len / 256 % 256 * 2 ^ 8) ≡ len =
      omega (arith, or-field 8 (len % 256) (len / 256 % 256)) in
    let test : (len == 0) ≡ false = ground arith in rw (h, lo, joined, test)

-- The three bytes in front of a payload.
feed_header :
    (n : ℕ) (d : Deframer) (len : ℕ) (rest : List ℕ)
    → d.state ≡ magic
    → 1 ≤ len
    → len < 65536
    → feed_all n d (head_bytes len ++ rest)
      ≡ feed_all n (record { buf = d.buf; fill = 0; state = payload len; rejects = d.rejects }) rest
unfolding feed_all feed head_bytes
feed_header n d len rest h l w =
    let lo : bit_and len 0xff % 256 ≡ len % 256 = omega (arith, and-byte len) in
    let joined : bit_or (len % 256) (len / 256 % 256 * 2 ^ 8) ≡ len =
      omega (arith, or-field 8 (len % 256) (len / 256 % 256)) in
    let test : (len == 0) ≡ false = ground arith in rw (h, lo, joined, test)

-- A whole frame in its wire form, from any state between two frames: exactly one frame comes out,
-- the payload cut to the buffer's size, and the deframer is between two frames again.
pub feed_all-encode :
    (n : ℕ) (d : Deframer) (p : List ℕ)
    → Idle n d
    → 1 ≤ length p
    → length p < 65536
    → Completes n (feed_all n d (encode p)) p
unfolding encode
feed_all-encode n d [] h l w = absurd (omega arith)
feed_all-encode n d (b ∷ bs) h l w =
    rw (feed_header n d (length (b ∷ bs)) (b ∷ bs) h.idle l w)
      (feed_payload_all n d.buf [] 0 d.rejects b bs refl h.full empty (omega arith))
  where
    empty : take (min 0 n) d.buf ≡ take n []
    empty = let e : min 0 n ≡ 0 = omega arith in rw e (sym (take_all n [] (omega arith)))

cons_some-append :
    (o : Option (List ℕ)) (xs ys : List (List ℕ)) → cons_some o (xs ++ ys) ≡ cons_some o xs ++ ys
cons_some-append none xs ys = refl
cons_some-append (some x) xs ys = refl

-- Bytes that come in two stretches complete the frames of the one and then those of the other.
pub feed_all-append :
    (n : ℕ) (d : Deframer) (xs ys : List ℕ)
    → feed_all n d (xs ++ ys) ≡ (
      (feed_all n (feed_all n d xs).0 ys).0,
      (feed_all n d xs).1 ++ (feed_all n (feed_all n d xs).0 ys).1,
    )
unfolding feed_all
feed_all-append n d [] ys = refl
feed_all-append n d (x ∷ xs) ys = rw (
  feed_all-append n (feed n d x).0 xs ys,
  cons_some-append (feed n d x).1 (feed_all n (feed n d x).0 xs).1,
)

-- Bytes between two frames.
abbrev pub IsNoise : List ℕ → Type 0
IsNoise bytes = All (λ b. b ≢ frame_magic) bytes

pub feed_noise :
    (n : ℕ) (d : Deframer) (b : ℕ)
    → d.state ≡ magic
    → b ≢ frame_magic
    → feed n d b ≡ (record d { rejects = (d.rejects + 1) % 2 ^ 32 }, none)
unfolding feed
feed_noise n d b h q = let t : (b == frame_magic) ≡ false = ground arith in rw (h, t)

feed_all_noise :
    (n : ℕ) (d : Deframer) (noise : List ℕ)
    → Idle n d
    → IsNoise noise
    → Idle n (feed_all n d noise).0 × ((feed_all n d noise).1 ≡ [])
unfolding feed_all
feed_all_noise n d [] h q = (h, refl)
feed_all_noise n d (x ∷ xs) h q = rw (feed_noise n d x h.idle q.0) (
    feed_all_noise n (record d { rejects = (d.rejects + 1) % 2 ^ 32 }) xs
      (record { full = h.full; idle = h.idle }) q.1)

-- A stretch of the stream: bytes that are no frame's, and then a frame with the payload given.
pub record Segment : Type 0 where
  pub noise : List ℕ
  pub body : List ℕ

pub record IsSegment (s : Segment) : Type 0 where
  pub quiet : IsNoise s.noise
  pub not_empty : 1 ≤ length s.body
  pub fits : length s.body < 65536

abbrev pub wire : List Segment → List ℕ
wire [] = []
wire (s ∷ ss) = s.noise ++ (encode s.body ++ wire ss)

-- A stream of frames with noise between them comes out frame by frame, in order, each payload cut
-- to the buffer's size. The deframer is between two frames at the start, the noise does not contain
-- the magic byte, and each payload has 1 to 65535 bytes.
pub feed_all-wire :
    (n : ℕ) (d : Deframer) (ss : List Segment)
    → Idle n d
    → All IsSegment ss
    → Idle n (feed_all n d (wire ss)).0 × ((feed_all n d (wire ss)).1 ≡ map (λ s. take n s.body) ss)
feed_all-wire n d [] h q = unfold feed_all in (h, refl)
feed_all-wire n d (s ∷ ss) h q =
    let (idle, none_out) = feed_all_noise n d s.noise h q.0.quiet in
    let d' = (feed_all n d s.noise).0 in
    let (idle', _, out) = feed_all-encode n d' s.body idle q.0.not_empty q.0.fits in
    let (idle'', outs) = feed_all-wire n (feed_all n d' (encode s.body)).0 ss idle' q.1 in
    rw
      (
        feed_all-append n d s.noise (encode s.body ++ wire ss),
        feed_all-append n d' (encode s.body) (wire ss),
        none_out,
        out,
        outs,
      )
      (idle'', refl)
