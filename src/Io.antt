-- ===== src/Io.antt =====
-- esp-daplink-target/src/probe/io/mod.rs: the pins of the debug port, and the words shifted over them.
pub mod Bits
pub mod Words
pub mod Line
pub mod Drive
pub mod BitBang
mod Tests
use esp32_dap_proxy.Prelude.{
  ℕ, zero, suc, ◌+◌, ◌*◌, ◌/◌, ◌^◌, Bool, true, false, not, ◌==◌, bit_and, bit_or, if◌then◌else◌,
}

-- The required methods of trait `Io`; `set_reset` has an empty default, which an implementation
-- without that pin gives as the identity.
pub record Io : Type 1 where
  pub State : Type 0
  pub set_clk_high : State → State
  pub set_clk_low : State → State
  pub set_data_high : State → State
  pub set_data_low : State → State
  pub is_data_high : State → Bool
  pub set_data_output : State → State
  pub set_data_input : State → State
  pub clock_cycle : State → State
  pub set_reset : Bool → State → State

module _ (io : Io) where
  open io use {
    State, set_clk_high, set_clk_low, set_data_high, set_data_low, is_data_high, set_data_output,
    clock_cycle,
  }

  -- `for _ in 0..n { self.clock_cycle(); }`
  unfoldable pub clock_cycles : ℕ → State → State
  clock_cycles zero s = s
  clock_cycles (suc n) s = clock_cycles n (clock_cycle s)

  unfoldable pub line_reset : State → State
  unfolding clock_cycles
  line_reset s = clock_cycles 60 (set_data_output (set_data_high s))

  unfoldable pub write_bit : Bool → State → State
  write_bit bit s = clock_cycle (if bit then set_data_high s else set_data_low s)

  unfoldable pub read_bit : State → Bool × State
  read_bit s = let low = set_clk_low s in (is_data_high low, set_clk_high low)

  -- `for i in 0..num_bits` from round `i` on, `n` rounds left.
  unfoldable pub write_from : ℕ → ℕ → ℕ → State → State
  unfolding write_bit
  write_from zero i value s = s
  write_from (suc n) i value s =
      write_from n (i + 1) value (write_bit (not (bit_and (value / 2 ^ i) 1 == 0)) s)

  unfoldable pub write_u32 : ℕ → ℕ → State → State
  unfolding write_from
  write_u32 value num_bits s = write_from num_bits 0 value s

  unfoldable pub read_from : ℕ → ℕ → ℕ → State → ℕ × State
  unfolding read_bit
  read_from zero i value s = (value, s)
  read_from (suc n) i value s =
      let (bit, s') = read_bit s in
      read_from n (i + 1) (if bit then bit_or value (1 * 2 ^ i) else value) s'

  unfoldable pub read_u32 : ℕ → State → ℕ × State
  unfolding read_from
  read_u32 num_bits s = read_from num_bits 0 0 s
