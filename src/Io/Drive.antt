-- ===== src/Io/Drive.antt =====
-- Whether the probe's side of SWDIO drives the line: the output enable behind the pins of
-- probe/io/mod.rs, which `set_data_output` and `set_data_input` switch and nothing else. The pins are
-- no part of the trait, and the observation is an argument.
use esp32_dap_proxy.Prelude.{
  ℕ, zero, suc, ◌+◌, ◌/◌, ◌^◌, ◌≡◌, refl, ◌∙◌, Bool, true, false, not, bit_and, ◌==◌,
}
use esp32_dap_proxy.Io.{Io, clock_cycles, line_reset, write_bit, read_bit, write_from, write_u32}

pub record Drive (io : Io) : Type 0 where
  pub output : io.State → Bool
  pub output-set_data_output : (s : io.State) → output (io.set_data_output s) ≡ true
  pub output-set_data_input : (s : io.State) → output (io.set_data_input s) ≡ false
  pub output-set_clk_high : (s : io.State) → output (io.set_clk_high s) ≡ output s
  pub output-set_clk_low : (s : io.State) → output (io.set_clk_low s) ≡ output s
  pub output-set_data_high : (s : io.State) → output (io.set_data_high s) ≡ output s
  pub output-set_data_low : (s : io.State) → output (io.set_data_low s) ≡ output s
  pub output-clock_cycle : (s : io.State) → output (io.clock_cycle s) ≡ output s
  pub output-set_reset : (high : Bool) (s : io.State) → output (io.set_reset high s) ≡ output s

module _ (io : Io) (drive : Drive io) where
  open io use {State}
  open drive use {
    output, output-set_data_output, output-set_clk_high, output-set_clk_low, output-set_data_high,
    output-set_data_low, output-clock_cycle,
  }

  output-clock_cycles : (n : ℕ) (s : State) → output (clock_cycles io n s) ≡ output s
  unfolding clock_cycles
  output-clock_cycles zero s = refl
  output-clock_cycles (suc n) s = output-clock_cycles n (io.clock_cycle s) ∙ output-clock_cycle s

  pub output-line_reset : (s : State) → output (line_reset io s) ≡ true
  unfolding line_reset
  output-line_reset s = output-clock_cycles 60 _ ∙ output-set_data_output _

  pub output-write_bit : (b : Bool) (s : State) → output (write_bit io b s) ≡ output s
  unfolding write_bit
  output-write_bit true s = output-clock_cycle _ ∙ output-set_data_high s
  output-write_bit false s = output-clock_cycle _ ∙ output-set_data_low s

  output-write_from : (n i v : ℕ) (s : State) → output (write_from io n i v s) ≡ output s
  unfolding write_from
  output-write_from zero i v s = refl
  output-write_from (suc n) i v s =
      output-write_from n (i + 1) v (write_bit io (not (bit_and (v / 2 ^ i) 1 == 0)) s)
      ∙ output-write_bit _ s

  pub output-write_u32 : (v n : ℕ) (s : State) → output (write_u32 io v n s) ≡ output s
  unfolding write_u32
  output-write_u32 v n s = output-write_from n 0 v s

  pub output-read_bit : (s : State) → output (read_bit io s).1 ≡ output s
  unfolding read_bit
  output-read_bit s = output-set_clk_high _ ∙ output-set_clk_low s
