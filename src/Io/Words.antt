-- ===== src/Io/Words.antt =====
-- `read_u32` and `write_u32` of probe/io/mod.rs against the bits that cross the wire.
use esp32_dap_proxy.Prelude.{
  ℕ, zero, suc, ◌+◌, ◌*◌, ◌/◌, ◌^◌, ◌<◌, ◌≡◌, refl, sym, ap, ◌∙◌, Bool, true, false, List, [], ◌∷◌,
  arith, ◌==◌, length, not, if◌then◌else◌, bit_and, bit_or,
}
use esp32_dap_proxy.Prelude.Bits.{or-field, and-one}
use esp32_dap_proxy.Io.{Io, write_bit, read_bit, write_from, write_u32, read_from, read_u32}
use esp32_dap_proxy.Io.Bits.{bit_value, is_odd, of_bits, of_bits-lt, to_bits}
use native.Mathlib.Nat.{pow-suc, div-div-eq-div-mul}
use native.Mathlib.Numerals.{towards_suc}

pow-add-one : (i : ℕ) → 2 ^ (i + 1) ≡ 2 * 2 ^ i
pow-add-one i = simp towards_suc (omega (arith, pow-suc 2 i))

-- One more bit of the word that is read.
set_bit :
    (b : Bool) (i value : ℕ)
    → value < 2 ^ i
    → (if b then bit_or value (1 * 2 ^ i) else value) ≡ value + 2 ^ i * bit_value b
set_bit true i value h = omega (arith, or-field i value 1 h)
set_bit false i value h = omega arith

set_bit-lt : (b : Bool) (i value : ℕ) → value < 2 ^ i → value + 2 ^ i * bit_value b < 2 ^ (i + 1)
set_bit-lt true i value h = omega (arith, pow-add-one i)
set_bit-lt false i value h = omega (arith, pow-add-one i)

shift_in : (i value b r : ℕ) → value + 2 ^ i * b + 2 ^ (i + 1) * r ≡ value + 2 ^ i * (b + 2 * r)
shift_in i value b r = omega (arith, ap (λ (t : ℕ). t * r) (pow-add-one i))

halve : (i value : ℕ) → value / 2 ^ (i + 1) ≡ value / 2 ^ i / 2
halve i value = simp towards_suc (rw pow-suc (sym (div-div-eq-div-mul value (2 ^ i) 2)))

pub is_odd-mask : (v : ℕ) → not (bit_and v 1 == 0) ≡ is_odd v
is_odd-mask v = rw and-one

module _ (io : Io) where
  open io use {State}

  -- The levels that `n` bits in a row read, first to last, and the state after them.
  unfoldable pub samples : ℕ → State → List Bool × State
  samples zero s = ([], s)
  samples (suc n) s =
      let (bit, s') = read_bit io s in let (bits, s'') = samples n s' in (bit ∷ bits, s'')

  -- The bits of a list written first to last.
  unfoldable pub send : List Bool → State → State
  send [] s = s
  send (b ∷ bs) s = send bs (write_bit io b s)

  pub length-samples : (n : ℕ) (s : State) → length (samples n s).0 ≡ n
  unfolding samples
  length-samples zero s = refl
  length-samples (suc n) s = ap suc (length-samples n (read_bit io s).1)

  pub read_from-samples :
      (n i value : ℕ) (s : State)
      → value < 2 ^ i
      → read_from io n i value s ≡ (value + 2 ^ i * of_bits (samples n s).0, (samples n s).1)
  unfolding read_from samples of_bits
  read_from-samples zero i value s h = ap (λ k. (k, s)) (omega arith)
  read_from-samples (suc n) i value s h =
      let (b, s') = read_bit io s in
      rw (
        set_bit b i value h,
        read_from-samples n (i + 1) (value + 2 ^ i * bit_value b) s' (set_bit-lt b i value h),
        shift_in i value (bit_value b) (of_bits (samples n s').0),
      )

  pub write_from-send :
      (n i value : ℕ) (s : State) → write_from io n i value s ≡ send (to_bits n (value / 2 ^ i)) s
  unfolding write_from send to_bits
  write_from-send zero i value s = refl
  write_from-send (suc n) i value s =
      rw (is_odd-mask (value / 2 ^ i), write_from-send n (i + 1) value, halve i value)

  -- A word of `n` bits that is read is the number of the levels read, lowest bit first, and fits
  -- `n` bits.
  pub read_u32-samples :
      (n : ℕ) (s : State)
      → (read_u32 io n s ≡ (of_bits (samples n s).0, (samples n s).1))
        × ((read_u32 io n s).0 < 2 ^ n)
  unfolding read_u32
  read_u32-samples n s =
      let e : read_u32 io n s ≡ (of_bits (samples n s).0, (samples n s).1) =
        read_from-samples n 0 0 s (omega arith) ∙ ap (λ k. (k, (samples n s).1)) (omega arith) in
      (e, rw e (rw length-samples at (of_bits-lt (samples n s).0)))

  -- A word of `n` bits is written as its `n` bits, lowest first.
  pub write_u32-send : (n value : ℕ) (s : State) → write_u32 io value n s ≡ send (to_bits n value) s
  unfolding write_u32
  write_u32-send n value s =
      write_from-send n 0 value s ∙ ap (λ k. send (to_bits n k) s) (omega arith)
