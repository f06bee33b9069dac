-- ===== src/Tcp/Bytes.antt =====
-- `recv_frame` of channel/tcp.rs hands on bytes, and each frame takes a read.
use esp32_dap_proxy.Prelude.{
  ℕ, zero, suc, ◌<◌, false, true, Option, none, some, List, [], ◌∷◌, arith, ltb, length, take, set,
  if◌then◌else◌, Bool-cases, inl, inr, ◌==◌,
}
use esp32_dap_proxy.Prelude.Bytes.{All, IsByte}
use esp32_dap_proxy.Frame.{
  Deframer, RxState, magic, len_lo, len_hi, payload, feed, feed_magic, feed_len_hi, feed_payload,
  dispatch, is_garbage,
}
use esp32_dap_proxy.Tcp.{
  ReadEvent, chunk, failed, Recv, received, refused, waiting, garbage, frame_too_large, Found,
  first_frame, return_or, deliver, recv_frame,
}
use esp32_dap_proxy.Tcp.Faults.{AreBytes}

All-set : (xs : List ℕ) (i b : ℕ) → All IsByte xs → IsByte b → All IsByte (set xs i b)
All-set [] i b h k = tt
All-set (x ∷ xs) zero b h k = (k, h.1)
All-set (x ∷ xs) (suc i) b h k = (h.0, All-set xs i b h.1 k)

All-take : (n : ℕ) (xs : List ℕ) → All IsByte xs → All IsByte (take n xs)
All-take zero xs h = tt
All-take (suc n) [] h = tt
All-take (suc n) (x ∷ xs) h = (h.0, All-take n xs h.1)

abbrev AllBytes : Option (List ℕ) → Type 0
AllBytes none = Unit
AllBytes (some f) = All IsByte f

feed_payload-AllBytes :
    (n : ℕ) (d : Deframer) (left byte : ℕ)
    → All IsByte d.buf
    → IsByte byte
    → All IsByte (feed_payload n d left byte).0.buf × AllBytes (feed_payload n d left byte).1
unfolding feed_payload
feed_payload-AllBytes n d left byte h b =
    let kept : All IsByte (if ltb d.fill n then set d.buf d.fill byte else d.buf) =
      elim (ltb d.fill n) as (λ t. All IsByte (if t then set d.buf d.fill byte else d.buf)) [
        | true ↦ All-set d.buf d.fill byte h b
        | false ↦ h
      ] in
    elim (Bool-cases (left == 1)) [
      | inl last ↦ rw last (kept, All-take _ _ kept)
      | inr more ↦ rw more (kept, tt)
    ]

dispatch-AllBytes :
    (n : ℕ) (d : Deframer) (s : RxState) (byte : ℕ)
    → All IsByte d.buf
    → IsByte byte
    → All IsByte (dispatch n d s byte).0.buf × AllBytes (dispatch n d s byte).1
unfolding feed_magic feed_len_hi
dispatch-AllBytes n d magic byte h b = ground arith
dispatch-AllBytes n d len_lo byte h b = (h, tt)
dispatch-AllBytes n d (len_hi lo) byte h b = (h, tt)
dispatch-AllBytes n d (payload left) byte h b = feed_payload-AllBytes n d left byte h b

abbrev FoundBytes : Found → Type 0
FoundBytes (d, found, rest) = All IsByte d.buf × AllBytes found

return_or_bytes :
    (out : Option (List ℕ)) (d : Deframer) (rest : List ℕ) (next : Found)
    → All IsByte d.buf
    → AllBytes out
    → FoundBytes next
    → FoundBytes (return_or out d rest next)
return_or_bytes none d rest next h k s = s
return_or_bytes (some f) d rest next h k s = (h, k)

first_frame-FoundBytes :
    (n : ℕ) (d : Deframer) (bytes : List ℕ)
    → All IsByte d.buf
    → All IsByte bytes
    → FoundBytes (first_frame n d bytes)
unfolding first_frame feed
first_frame-FoundBytes n d [] h b = (h, tt)
first_frame-FoundBytes n d (x ∷ xs) h b =
    let (h', k) = dispatch-AllBytes n d d.state x h b.0 in
    return_or_bytes _ _ xs _ h' k (first_frame-FoundBytes n (feed n d x).0 xs h' b.1)

-- A frame of bytes has come, from at least one of the reads; what is left are reads of bytes. The
-- deframer still holds bytes.
abbrev pub Progress : List ReadEvent → Recv → Type 0
Progress es (received f d es') =
    All IsByte f × All IsByte d.buf × (length es' < length es) × All AreBytes es'
Progress es (refused e d es') = All IsByte d.buf
Progress es (waiting d) = Unit

later : (e : ReadEvent) (es : List ReadEvent) (r : Recv) → Progress es r → Progress (e ∷ es) r
later e es (received f d es') (h, k, lt, b) = (h, k, omega arith, b)
later e es (refused x d es') p = p
later e es (waiting d) p = tt

deliver-Progress :
    (room : ℕ) (found : Found) (e : ReadEvent) (es : List ReadEvent) (next : Recv)
    → FoundBytes found
    → All AreBytes es
    → Progress (e ∷ es) next
    → Progress (e ∷ es) (deliver room found es next)
deliver-Progress room (d, none, rest) e es next f b p =
    elim (is_garbage d) as (λ t. Progress (e ∷ es) (if t then refused garbage d es else next)) [
      | true ↦ f.0
      | false ↦ p
    ]
deliver-Progress room (d, some g, rest) e es next f b p =
    elim (ltb room (length g))
      as (λ t. Progress (e ∷ es) (if t then refused frame_too_large d es else received g d es)) [
        | true ↦ f.0
        | false ↦ (f.1, f.0, omega arith, b)
      ]

pub recv_frame-Progress :
    (n room : ℕ) (d : Deframer) (es : List ReadEvent)
    → All IsByte d.buf
    → All AreBytes es
    → Progress es (recv_frame n room d es)
unfolding recv_frame
recv_frame-Progress n room d [] h b = tt
recv_frame-Progress n room d (failed ∷ es) h b = h
recv_frame-Progress n room d (chunk [] ∷ es) h b = h
recv_frame-Progress n room d (chunk (x ∷ xs) ∷ es) h b =
    let f = first_frame-FoundBytes n d (x ∷ xs) h b.0 in
    let e = chunk (x ∷ xs) in
    deliver-Progress room (first_frame n d (x ∷ xs)) e es _ f b.1
      (later e es _ (recv_frame-Progress n room (first_frame n d (x ∷ xs)).0 es f.0 b.1))
