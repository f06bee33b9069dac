-- ===== src/Swd/Sequence.antt =====
-- `swj_sequence` of probe/transport/swd.rs: the bits that it puts on the line.
use esp32_dap_proxy.Prelude.{
  ℕ, zero, suc, ◌+◌, ◌-◌, ◌*◌, ◌/◌, ◌%◌, ◌^◌, ◌≤◌, ◌<◌, ◌≡◌, refl, sym, ap, ◌∙◌, min, Bool, false,
  not, List, [], ◌∷◌, ◌++◌, ltb, ◌==◌, arith, length, length-append, take, drop, get_or, ok,
  bit_and, Bool-cases, inl, inr,
}
use esp32_dap_proxy.Io.{Io, write_bit}
use esp32_dap_proxy.Io.Bits.{is_odd, to_bits, length-to_bits}
use esp32_dap_proxy.Io.Words.{send, is_odd-mask}
use esp32_dap_proxy.Swd.{Swd, sequence_from, swj_sequence}
use native.Mathlib.Nat.{pow-suc, div-div-eq-div-mul}

-- The bits of the bytes in order, each byte's lowest first.
abbrev pub bits_of : List ℕ → List Bool
bits_of [] = []
bits_of (b ∷ bs) = to_bits 8 b ++ bits_of bs

length-bits_of : (bytes : List ℕ) → length (bits_of bytes) ≡ 8 * length bytes
length-bits_of [] = refl
length-bits_of (b ∷ bs) =
    omega (arith, length-append (to_bits 8 b) (bits_of bs), length-to_bits 8 b, length-bits_of bs)

get_or-to_bits :
    (n v i : ℕ) (rest : List Bool)
    → i < n
    → get_or (to_bits n v ++ rest) i false ≡ is_odd (v / 2 ^ i)
unfolding to_bits
get_or-to_bits zero v i rest h = absurd (omega arith)
get_or-to_bits (suc n) v zero rest h = ap is_odd (omega arith)
get_or-to_bits (suc n) v (suc i) rest h =
    let power : 2 * 2 ^ i ≡ 2 ^ suc i = omega (arith, pow-suc 2 i) in
    get_or-to_bits n (v / 2) i rest (omega arith)
    ∙ ap is_odd (div-div-eq-div-mul v 2 (2 ^ i) ∙ ap (λ k. v / k) power)

get_or-append_skip :
    (xs ys : List Bool) (j : ℕ) → get_or (xs ++ ys) (length xs + j) false ≡ get_or ys j false
get_or-append_skip [] ys j = ap (λ i. get_or ys i false) (omega arith)
get_or-append_skip (x ∷ xs) ys j =
    let e : suc (length xs) + j ≡ suc (length xs + j) = omega arith in
    rw e (get_or-append_skip xs ys j)

get_or-bits_of :
    (bytes : List ℕ) (i : ℕ)
    → i < 8 * length bytes
    → get_or (bits_of bytes) i false ≡ is_odd (get_or bytes (i / 8) 0 / 2 ^ (i % 8))
get_or-bits_of [] i h = absurd (omega arith)
get_or-bits_of (b ∷ bs) i h = elim (Bool-cases (ltb i 8)) [
  | inl first ↦
      let here : i < 8 = ground arith in
      let byte : i / 8 ≡ 0 = omega arith in
      let bit : i % 8 ≡ i = omega arith in rw (byte, bit) (get_or-to_bits 8 b i (bits_of bs) here)
  | inr later ↦
      let there : 8 ≤ i = ground arith in
      let byte : i / 8 ≡ suc ((i - 8) / 8) = omega arith in
      let bit : i % 8 ≡ (i - 8) % 8 = omega arith in
      let skip : i ≡ length (to_bits 8 b) + (i - 8) = omega (arith, length-to_bits 8 b) in
      ap (λ k. get_or (to_bits 8 b ++ bits_of bs) k false) skip
      ∙ get_or-append_skip (to_bits 8 b) (bits_of bs) (i - 8)
      ∙ get_or-bits_of bs (i - 8) (omega arith)
      ∙ rw (byte, bit)
]

drop-get_or :
    (xs : List Bool) (i : ℕ) → i < length xs → drop i xs ≡ get_or xs i false ∷ drop (suc i) xs
drop-get_or [] i h = absurd (omega arith)
drop-get_or (x ∷ xs) zero h = refl
drop-get_or (x ∷ xs) (suc i) h = drop-get_or xs i (omega arith)

take-min : (n : ℕ) (xs : List Bool) → take (min n (length xs)) xs ≡ take n xs
take-min zero xs = let e : min 0 (length xs) ≡ 0 = omega arith in rw e
take-min (suc n) [] = let e : min (suc n) 0 ≡ 0 = omega arith in rw e
take-min (suc n) (x ∷ xs) =
    let e : min (suc n) (suc (length xs)) ≡ suc (min n (length xs)) = omega arith in
    rw e (ap (λ ys. x ∷ ys) (take-min n xs))

module _ (io : Io) where
  sequence_from-send :
      (n i : ℕ) (bytes : List ℕ) (pins : io.State)
      → i + n ≤ 8 * length bytes
      → sequence_from io n i bytes pins ≡ send io (take n (drop i (bits_of bytes))) pins
  unfolding sequence_from send
  sequence_from-send zero i bytes pins h = refl
  sequence_from-send (suc n) i bytes pins h =
      let bit = get_or (bits_of bytes) i false in
      let there : i < length (bits_of bytes) = omega (arith, length-bits_of bytes) in
      let next : i + 1 ≡ suc i = omega arith in
      let same : not (bit_and (get_or bytes (i / 8) 0 / 2 ^ (i % 8)) 1 == 0) ≡ bit =
        is_odd-mask (get_or bytes (i / 8) 0 / 2 ^ (i % 8))
        ∙ sym (get_or-bits_of bytes i (omega arith)) in
      rw (same, next, drop-get_or (bits_of bytes) i there)
        (sequence_from-send n (suc i) bytes (write_bit io bit pins) (omega arith))

  -- A SWJ sequence succeeds and puts out the first `count` bits of its bytes, each byte's lowest bit
  -- first, or all of them when there are fewer; nothing else of the transport changes.
  pub swj_sequence-send :
      (count : ℕ) (bytes : List ℕ) (s : Swd io)
      → swj_sequence io count bytes s
        ≡ (ok tt, record s { pins = send io (take count (bits_of bytes)) s.pins })
  unfolding swj_sequence
  swj_sequence-send count bytes s =
      let n = min count (length bytes * 8) in
      let all : n ≡ min count (length (bits_of bytes)) = omega (arith, length-bits_of bytes) in
      ap (λ (p : io.State). (ok tt, record s { pins = p }))
        (sequence_from-send n 0 bytes s.pins (omega arith)
          ∙ ap (λ bs. send io bs s.pins)
              (ap (λ k. take k (bits_of bytes)) all ∙ take-min count (bits_of bytes)))
