-- ===== src/Tcp/Arrival.antt =====
-- `recv_frame` of channel/tcp.rs receives what a peer sends in wire form.
use esp32_dap_proxy.Prelude.{
  ℕ, ◌+◌, ◌%◌, ◌^◌, ◌≤◌, ◌<◌, ◌≡◌, refl, none, some, List, [], ◌∷◌, ◌++◌, arith, length, ◌∙◌, take,
  sym, append_assoc, length-append, min, length-take, bit_and, take_all,
}
use esp32_dap_proxy.Prelude.Bytes.{All}
use esp32_dap_proxy.Frame.{Deframer, feed, payload, magic, len_lo, len_hi, max_rejects, frame_magic}
use esp32_dap_proxy.Frame.Wire.{encode}
use esp32_dap_proxy.Frame.Payload.{Idle, feed_more, feed_last, next_buf, length-next, write_next}
use esp32_dap_proxy.Frame.RoundTrip.{IsNoise, feed_noise, feed_len}
use esp32_dap_proxy.Tcp.{ReadEvent, received, first_frame, recv_frame}
use esp32_dap_proxy.Tcp.Chunks.{joined, reads, IsCalm, recv_frame-reads}

-- The bytes complete the frame with their last one, and on the way too little is thrown away to
-- count as garbage.
abbrev pub Arrives : ℕ → Deframer → List ℕ → List ℕ → Type 0
Arrives n d bytes f =
    (d' : Deframer) × (first_frame n d bytes ≡ (d', some f, []))
    × Idle n d'
    × (d'.rejects ≡ 0)
    × IsCalm n d bytes

Arrives-cons :
    (n : ℕ) (d : Deframer) (b : ℕ) (bs f : List ℕ) {d₁ : Deframer}
    → feed n d b ≡ (d₁, none)
    → d.rejects ≤ max_rejects
    → Arrives n d₁ bs f
    → Arrives n d (b ∷ bs) f
unfolding first_frame
Arrives-cons n d b bs f e low (d', first, idle, zeroed, calm) =
    (d', rw e first, idle, zeroed, (low, rw e calm))

Arrives-last :
    (n : ℕ) (d : Deframer) (b : ℕ) (f : List ℕ) {d₁ : Deframer}
    → feed n d b ≡ (d₁, some f)
    → d.rejects ≤ max_rejects
    → Idle n d₁
    → d₁.rejects ≡ 0
    → Arrives n d (b ∷ []) f
unfolding first_frame
Arrives-last n d b f {d₁} e low idle zeroed = (d₁, rw e, idle, zeroed, (low, rw e (omega arith)))

pub payload-Arrives :
    (n : ℕ) (buf q : List ℕ) (fill rejects b : ℕ) (bs : List ℕ)
    → fill ≡ length q
    → rejects ≤ max_rejects
    → length buf ≡ n
    → take (min (length q) n) buf ≡ take n q
    → length q + length bs < 65535
    → Arrives n
        (record { buf = buf; fill = fill; state = payload (length (b ∷ bs)); rejects = rejects })
        (b ∷ bs)
        (take n (q ++ (b ∷ bs)))
payload-Arrives n buf q fill rejects b [] k low e h w = rw k (
    Arrives-last n _ b _ (feed_last n buf q rejects b e h (omega arith)) low
      (record { full = length-next n buf q b ∙ e; idle = refl }) refl)
payload-Arrives n buf q fill rejects b (c ∷ bs) k low e h w =
    let more = feed_more n buf q (length (c ∷ bs)) rejects b (omega arith) (omega arith) in
    let q' = q ++ (b ∷ []) in
    let grown : length q' ≡ length q + 1 = length-append q (b ∷ []) in
    rw k (
      Arrives-cons n _ b (c ∷ bs) _ more low (
        rw (append_assoc q (b ∷ []) (c ∷ bs)) at (
          payload-Arrives n (next_buf n buf q b) q' (length q + 1) rejects c bs (sym grown) low
            (length-next n buf q b ∙ e) (rw grown (write_next n buf q b e h)) (omega arith))))

pub feed_start :
    (n : ℕ) (d : Deframer)
    → d.state ≡ magic
    → feed n d frame_magic ≡ (record d { state = len_lo }, none)
unfolding feed
feed_start n d h = rw h

pub feed_lo :
    (n lo : ℕ) (d : Deframer)
    → d.state ≡ len_lo
    → feed n d lo ≡ (record d { state = len_hi lo }, none)
unfolding feed
feed_lo n lo d h = rw h

pub encode-Arrives :
    (n : ℕ) (d : Deframer) (p : List ℕ)
    → Idle n d
    → d.rejects ≤ max_rejects
    → 1 ≤ length p
    → length p < 65536
    → Arrives n d (encode p) (take n p)
unfolding encode
encode-Arrives n d [] h low l w = absurd (omega arith)
encode-Arrives n d (b ∷ bs) h low l w =
    let len = length (b ∷ bs) in
    let d₁ = record d { state = len_lo } in
    let d₂ = record d { state = len_hi (bit_and len 0xff % 256) } in
    Arrives-cons n d _ _ _ (feed_start n d h.idle) low (
      Arrives-cons n d₁ _ _ _ (feed_lo n _ d₁ refl) low (
        Arrives-cons n d₂ _ _ _ (feed_len n len d₂ refl l w) low
          (payload-Arrives n d.buf [] 0 d.rejects b bs refl low h.full empty (omega arith))))
  where
    empty : take (min 0 n) d.buf ≡ take n []
    empty = let e : min 0 n ≡ 0 = omega arith in rw e (sym (take_all n [] (omega arith)))

noise-Arrives :
    (n : ℕ) (d : Deframer) (noise p : List ℕ)
    → Idle n d
    → IsNoise noise
    → d.rejects + length noise ≤ max_rejects
    → 1 ≤ length p
    → length p < 65536
    → Arrives n d (noise ++ encode p) (take n p)
noise-Arrives n d [] p h q low l w = encode-Arrives n d p h (omega arith) l w
noise-Arrives n d (x ∷ xs) p h q low l w =
    Arrives-cons n d x _ _ (feed_noise n d x h.idle q.0) (omega arith) (
      noise-Arrives n (record d { rejects = (d.rejects + 1) % 2 ^ 32 }) xs p
        (record { full = h.full; idle = h.idle }) q.1 (omega arith) l w)

-- Between two frames, the bytes of noise and then of a frame's wire form, cut into non-empty reads
-- in any way, are received as that frame's payload, cut to the deframer's capacity; the deframer is
-- between two frames again with its count of rejected bytes cleared, and the later reads are left.
-- The noise holds no magic byte and, with what was rejected before, is at most 128 bytes long; the
-- payload has 1 to 65535 bytes, and the caller's buffer has room for what is left of it.
pub recv_frame-encode :
    (n room : ℕ) (d : Deframer) (noise p : List ℕ) (cs : List (List ℕ)) (more : List ReadEvent)
    → Idle n d
    → IsNoise noise
    → d.rejects + length noise ≤ max_rejects
    → 1 ≤ length p
    → length p < 65536
    → min (length p) n ≤ room
    → All (λ c. 1 ≤ length c) cs
    → joined cs ≡ noise ++ encode p
    → (d' : Deframer) × (recv_frame n room d (reads cs ++ more) ≡ received (take n p) d' more)
      × Idle n d'
      × (d'.rejects ≡ 0)
recv_frame-encode n room d noise p cs more h q low l w fits full e =
    let (d', first, idle, zeroed, calm) = rw (← e) at (noise-Arrives n d noise p h q low l w) in
    let short : length (take n p) ≤ room = omega (arith, length-take n p) in
    (d', recv_frame-reads n room d cs more full calm first short, idle, zeroed)
