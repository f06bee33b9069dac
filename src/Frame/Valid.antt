-- ===== src/Frame/Valid.antt =====
-- The invariant of the deframer of channel/frame.rs.
use esp32_dap_proxy.Prelude.{
  ℕ, ◌+◌, ◌%◌, ◌≤◌, ◌<◌, ◌≡◌, refl, Option, none, some, List, [], ◌∷◌, arith, min, length, set,
  length-set, length-take, length-replicate,
}
use esp32_dap_proxy.Prelude.Bytes.{All, IsByte, usize_mod}
use esp32_dap_proxy.Prelude.Bits.{or-field}
use esp32_dap_proxy.Frame.{
  RxState, magic, len_lo, len_hi, payload, Deframer, new, feed, feed_all, feed_magic, feed_len_hi,
  feed_payload, dispatch, cons_some,
}

-- The length byte that is kept is a byte, and the bytes received and those still to come make up a
-- length of 16 bits.
abbrev pub InRange : RxState → ℕ → Type 0
InRange magic fill = Unit
InRange len_lo fill = Unit
InRange (len_hi lo) fill = IsByte lo
InRange (payload left) fill = (1 ≤ left) × (left + fill < 65536)

pub record IsValid (n : ℕ) (d : Deframer) : Type 0 where
  pub full : length d.buf ≡ n
  pub in_range : InRange d.state d.fill

-- A frame that came out has at least one byte and fits the buffer.
abbrev pub FrameFits : ℕ → Option (List ℕ) → Type 0
FrameFits n none = Unit
FrameFits n (some f) = (1 ≤ length f) × (length f ≤ n)

pub new-IsValid : (n : ℕ) → IsValid n (new n)
new-IsValid n = record { full = length-replicate n 0; in_range = tt }

dispatch-IsValid :
    (n : ℕ) (d : Deframer) (s : RxState) (byte : ℕ)
    → d.state ≡ s
    → length d.buf ≡ n
    → InRange s d.fill
    → 1 ≤ n
    → IsByte byte
    → IsValid n (dispatch n d s byte).0 × FrameFits n (dispatch n d s byte).1
unfolding feed_magic feed_len_hi feed_payload
dispatch-IsValid n d magic byte q e r h b = rw q (ground arith)
dispatch-IsValid n d len_lo byte q e r h b = ground arith
dispatch-IsValid n d (len_hi lo) byte q e r h b = ground (arith, or-field 8 lo byte)
dispatch-IsValid n d (payload left) byte q e r h b = ground (
  arith,
  length-set d.buf d.fill byte,
  length-take (min ((d.fill + 1) % usize_mod) n) (set d.buf d.fill byte),
  length-take (min ((d.fill + 1) % usize_mod) n) d.buf,
)

pub feed-IsValid :
    (n : ℕ) (d : Deframer) (byte : ℕ)
    → IsValid n d
    → 1 ≤ n
    → IsByte byte
    → IsValid n (feed n d byte).0 × FrameFits n (feed n d byte).1
unfolding feed
feed-IsValid n d byte v h b = dispatch-IsValid n d d.state byte refl v.full v.in_range h b

All-cons_some :
    (n : ℕ) (o : Option (List ℕ)) (frames : List (List ℕ))
    → FrameFits n o
    → All (λ f. (1 ≤ length f) × (length f ≤ n)) frames
    → All (λ f. (1 ≤ length f) × (length f ≤ n)) (cons_some o frames)
All-cons_some n none frames h k = k
All-cons_some n (some f) frames h k = (h, k)

-- Every byte string leaves the deframer valid, and every frame that it completes has between 1 and
-- `n` bytes.
feed_all-IsValid :
    (n : ℕ) (d : Deframer) (bytes : List ℕ)
    → IsValid n d
    → 1 ≤ n
    → All IsByte bytes
    → IsValid n (feed_all n d bytes).0
      × All (λ f. (1 ≤ length f) × (length f ≤ n)) (feed_all n d bytes).1
unfolding feed_all
feed_all-IsValid n d [] v h b = (v, tt)
feed_all-IsValid n d (x ∷ xs) v h b =
    let (v', fits) = feed-IsValid n d x v h b.0 in
    let (w, rest) = feed_all-IsValid n (feed n d x).0 xs v' h b.1 in
    (w, All-cons_some n _ _ fits rest)
