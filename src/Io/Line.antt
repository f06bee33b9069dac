-- ===== src/Io/Line.antt =====
-- A debug line behind the pins of probe/io/mod.rs: what the methods do to its clock and what they
-- read. The line is no part of the repository; it is assumed to change its level with the clock only.
use esp32_dap_proxy.Prelude.{
  ℕ, zero, suc, ◌+◌, ◌≡◌, refl, ap, ap₂, ◌∙◌, Bool, true, false, List, [], ◌∷◌, arith, length,
}
use esp32_dap_proxy.Io.{Io, write_bit, read_bit, write_u32, read_u32}
use esp32_dap_proxy.Io.Bits.{of_bits, to_bits, length-to_bits}
use esp32_dap_proxy.Io.Words.{samples, send, read_u32-samples, write_u32-send}

-- SWCLK counts rising edges, and `level k` is the level of SWDIO while the count is `k`.
pub record Line (io : Io) : Type 0 where
  pub clock : io.State → ℕ
  pub level : ℕ → Bool
  pub clock-set_clk_high : (s : io.State) → clock (io.set_clk_high s) ≡ clock s + 1
  pub clock-set_clk_low : (s : io.State) → clock (io.set_clk_low s) ≡ clock s
  pub clock-clock_cycle : (s : io.State) → clock (io.clock_cycle s) ≡ clock s + 1
  pub clock-set_data_high : (s : io.State) → clock (io.set_data_high s) ≡ clock s
  pub clock-set_data_low : (s : io.State) → clock (io.set_data_low s) ≡ clock s
  pub clock-set_data_output : (s : io.State) → clock (io.set_data_output s) ≡ clock s
  pub clock-set_data_input : (s : io.State) → clock (io.set_data_input s) ≡ clock s
  pub is_data_high-level : (s : io.State) → io.is_data_high (io.set_clk_low s) ≡ level (clock s)

-- The levels of `n` cycles from the count `c` on.
unfoldable pub levels : (ℕ → Bool) → ℕ → ℕ → List Bool
levels level zero c = []
levels level (suc n) c = level c ∷ levels level n (c + 1)

module _ (io : Io) (line : Line io) where
  open io use {State}
  open line use {
    clock, level, clock-set_clk_high, clock-set_clk_low, clock-clock_cycle, clock-set_data_high,
    clock-set_data_low, is_data_high-level,
  }

  pub clock-write_bit : (b : Bool) (s : State) → clock (write_bit io b s) ≡ clock s + 1
  unfolding write_bit
  clock-write_bit true s = rw (clock-clock_cycle, clock-set_data_high)
  clock-write_bit false s = rw (clock-clock_cycle, clock-set_data_low)

  pub clock-send : (bs : List Bool) (s : State) → clock (send io bs s) ≡ clock s + length bs
  unfolding send
  clock-send [] s = omega arith
  clock-send (b ∷ bs) s = omega (arith, clock-send bs (write_bit io b s), clock-write_bit b s)

  pub clock-write_u32 : (n v : ℕ) (s : State) → clock (write_u32 io v n s) ≡ clock s + n
  clock-write_u32 n v s =
      rw (write_u32-send io n v s, clock-send (to_bits n v) s, length-to_bits n v)

  pub read_bit-level :
      (s : State) → ((read_bit io s).0 ≡ level (clock s)) × (clock (read_bit io s).1 ≡ clock s + 1)
  unfolding read_bit
  read_bit-level s =
      (is_data_high-level s, clock-set_clk_high _ ∙ ap (λ k. k + 1) (clock-set_clk_low s))

  samples-levels :
      (n : ℕ) (s : State)
      → ((samples io n s).0 ≡ levels level n (clock s)) × (clock (samples io n s).1 ≡ clock s + n)
  unfolding samples levels
  samples-levels zero s = (refl, omega arith)
  samples-levels (suc n) s =
      let s' = (read_bit io s).1 in
      let (bit, tick) = read_bit-level s in
      let (rest, ticks) = samples-levels n s' in
      (ap₂ ◌∷◌ bit (rest ∙ ap (levels level n) tick), omega arith)

  -- A word that is read is made of the levels of as many cycles, and takes as many.
  pub read_u32-levels :
      (n : ℕ) (s : State)
      → ((read_u32 io n s).0 ≡ of_bits (levels level n (clock s)))
        × (clock (read_u32 io n s).1 ≡ clock s + n)
  read_u32-levels n s =
      let (bits, tick) = samples-levels n s in
      rw (read_u32-samples io n s).0 (ap of_bits bits, tick)
