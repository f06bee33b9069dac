-- ===== src/Tcp/Faults.antt =====
-- `recv_frame` of channel/tcp.rs: what every outcome keeps, and what is lost between two calls.
use esp32_dap_proxy.Prelude.{
  ℕ, ◌≤◌, ◌<◌, ◌≡◌, ◌≢◌, false, true, Option, none, some, List, [], ◌∷◌, ◌++◌, arith, ltb, length,
  ◌∙◌, ap, take, min, length-take, if◌then◌else◌,
}
use esp32_dap_proxy.Prelude.Bytes.{All, IsByte}
use esp32_dap_proxy.Frame.{Deframer, feed, is_garbage, max_rejects}
use esp32_dap_proxy.Frame.Valid.{IsValid, FrameFits, feed-IsValid}
use esp32_dap_proxy.Frame.Wire.{encode}
use esp32_dap_proxy.Frame.Payload.{Idle}
use esp32_dap_proxy.Tcp.{
  ReadEvent, chunk, failed, Recv, received, refused, waiting, garbage, frame_too_large, Found,
  first_frame, return_or, deliver, recv_frame,
}
use esp32_dap_proxy.Tcp.Chunks.{first_frame-append, or_else, after}
use esp32_dap_proxy.Tcp.Arrival.{encode-Arrives}

abbrev pub AreBytes : ReadEvent → Type 0
AreBytes (chunk bs) = All IsByte bs
AreBytes failed = Unit

-- What holds of an outcome, by its kind.
abbrev pub Sound : ℕ → Recv → Type 0
Sound n (received f d es) = (1 ≤ length f) × (length f ≤ n) × IsValid n d
Sound n (refused e d es) = (e ≢ frame_too_large) × IsValid n d
Sound n (waiting d) = IsValid n d

abbrev FoundSound : ℕ → Found → Type 0
FoundSound n (d, found, rest) = IsValid n d × FrameFits n found

return_or_sound :
    (n : ℕ) (out : Option (List ℕ)) (d : Deframer) (rest : List ℕ) (next : Found)
    → IsValid n d
    → FrameFits n out
    → FoundSound n next
    → FoundSound n (return_or out d rest next)
return_or_sound n none d rest next v fits s = s
return_or_sound n (some f) d rest next v fits s = (v, fits)

first_frame_sound :
    (n : ℕ) (d : Deframer) (bytes : List ℕ)
    → 1 ≤ n
    → IsValid n d
    → All IsByte bytes
    → FoundSound n (first_frame n d bytes)
unfolding first_frame
first_frame_sound n d [] h v b = (v, tt)
first_frame_sound n d (x ∷ xs) h v b =
    let (v', fits) = feed-IsValid n d x v h b.0 in
    return_or_sound n _ _ _ _ v' fits (first_frame_sound n (feed n d x).0 xs h v' b.1)

deliver-Sound :
    (n room : ℕ) (found : Found) (es : List ReadEvent) (next : Recv)
    → n ≤ room
    → FoundSound n found
    → Sound n next
    → Sound n (deliver room found es next)
deliver-Sound n room (d, none, rest) es next h s t =
    elim (is_garbage d) as (λ b. Sound n (if b then refused garbage d es else next)) [
      | true ↦ ((λ e. cc), s.0)
      | false ↦ t
    ]
deliver-Sound n room (d, some f, rest) es next h s t =
    let fits : ltb room (length f) ≡ false = ground (arith, s.1) in rw fits (s.1.0, s.1.1, s.0)

-- On any sequence of reads of bytes, a valid deframer of at least one byte and a caller's buffer no
-- smaller than it: the deframer stays valid, a frame that is received has between 1 byte and the
-- deframer's capacity, and the error `FrameTooLarge` does not occur.
pub recv_frame-Sound :
    (n room : ℕ) (d : Deframer) (es : List ReadEvent)
    → 1 ≤ n
    → n ≤ room
    → IsValid n d
    → All AreBytes es
    → Sound n (recv_frame n room d es)
unfolding recv_frame
recv_frame-Sound n room d [] h k v b = v
recv_frame-Sound n room d (failed ∷ es) h k v b = ((λ e. cc), v)
recv_frame-Sound n room d (chunk [] ∷ es) h k v b = ((λ e. cc), v)
recv_frame-Sound n room d (chunk (x ∷ xs) ∷ es) h k v b =
    let s = first_frame_sound n d (x ∷ xs) h v b.0 in
    deliver-Sound n room (first_frame n d (x ∷ xs)) es _ k s
      (recv_frame-Sound n room (first_frame n d (x ∷ xs)).0 es h k s.0 b.1)

recv_found :
    (n room : ℕ) (d : Deframer) (c : List ℕ) (es : List ReadEvent) {d' : Deframer} {f r : List ℕ}
    → first_frame n d c ≡ (d', some f, r)
    → length f ≤ room
    → 1 ≤ length c
    → recv_frame n room d (chunk c ∷ es) ≡ received f d' es
unfolding recv_frame
recv_found n room d [] es e l h = absurd (omega arith)
recv_found n room d (x ∷ xs) es {d'} {f} e l h =
    let fits : ltb room (length f) ≡ false = ground arith in ap (after n room es) e ∙ rw fits

one-le-length-encode : (p : List ℕ) → 1 ≤ length (encode p)
unfolding encode
one-le-length-encode p = omega arith

one-le-length-encode_append : (p tail : List ℕ) → 1 ≤ length (encode p ++ tail)
unfolding encode
one-le-length-encode_append p tail = omega arith

-- What a read brings behind a whole frame is lost: the outcome is the one of the read without those
-- bytes, so a second request in the same read is never seen. The read begins with the wire form of
-- the frame, the deframer is between two frames and has rejected at most 128 bytes, the payload has 1
-- to 65535 bytes, and cut to the deframer's capacity it fits the caller's buffer.
pub recv_frame_tail :
    (n room : ℕ) (d : Deframer) (p tail : List ℕ) (more : List ReadEvent)
    → Idle n d
    → d.rejects ≤ max_rejects
    → 1 ≤ length p
    → length p < 65536
    → min (length p) n ≤ room
    → (d' : Deframer) × (recv_frame n room d (chunk (encode p ++ tail) ∷ more)
        ≡ received (take n p) d' more)
      × (recv_frame n room d (chunk (encode p) ∷ more) ≡ received (take n p) d' more)
recv_frame_tail n room d p tail more h low l w fits =
    let (d', first, _, _, _) = encode-Arrives n d p h low l w in
    let short : length (take n p) ≤ room = omega (arith, length-take n p) in
    let longer = first_frame-append n d (encode p) tail ∙ ap (λ t. or_else n t tail) first in
    (
      d',
      recv_found n room d _ more longer short (one-le-length-encode_append p tail),
      recv_found n room d _ more first short (one-le-length-encode p),
    )
