-- ===== src/Io/BitBang.antt =====
-- esp-daplink-target/src/probe/io/bitbang.rs: the pins of the debug port driven by software. The pins
-- are those of esp-hal, and an argument; the delay between two edges takes time and does nothing.
pub mod Wave
pub mod Enable
use esp32_dap_proxy.Prelude.{ℕ, Bool, true, false, Option, none, some, if◌then◌else◌}
use mathlib.Core.Option
use esp32_dap_proxy.Io.{Io}

-- SWCLK and the reset line are outputs, SWDIO goes both ways.
pub record Gpio : Type 1 where
  pub State : Type 0
  pub set_swclk : Bool → State → State
  pub set_swdio : Bool → State → State
  pub swdio_is_high : State → Bool
  pub set_output_enable : Bool → State → State
  pub set_input_enable : Bool → State → State
  pub apply_output_config : State → State
  pub apply_input_config : State → State
  pub set_reset : Bool → State → State
  pub apply_reset_config : State → State

module _ (gpio : Gpio) where
  -- `reset` says whether there is a reset line.
  pub record BitBangIo : Type 0 where
    pub pins : gpio.State
    pub delay : ℕ
    pub reset : Bool

  abbrev pub default_delay : ℕ
  default_delay = 20

  unfoldable pub new : Option ℕ → gpio.State → BitBangIo
  new delay s =
      let s₁ = gpio.apply_output_config (gpio.set_swclk false s) in
      let s₂ = gpio.set_swdio true (gpio.apply_input_config s₁) in
      record {
        pins = gpio.set_output_enable true (gpio.set_input_enable true s₂);
        delay = Option.get_or delay default_delay;
        reset = false;
      }

  unfoldable pub with_reset : BitBangIo → BitBangIo
  with_reset b = record b {
    pins = gpio.set_reset true (gpio.apply_reset_config b.pins);
    reset = true;
  }

  -- `set_high` or `set_low`, and `nop_delay`
  abbrev pub set_clk : Bool → BitBangIo → BitBangIo
  set_clk high b = record b { pins = gpio.set_swclk high b.pins }

  abbrev pub set_reset : Bool → BitBangIo → BitBangIo
  set_reset high b = if b.reset then record b { pins = gpio.set_reset high b.pins } else b

  -- impl Io for BitBangIo
  abbrev pub bit_bang : Io
  bit_bang = record {
    State = BitBangIo;
    set_clk_high = set_clk true;
    set_clk_low = set_clk false;
    set_data_high = λ b. record b { pins = gpio.set_swdio true b.pins };
    set_data_low = λ b. record b { pins = gpio.set_swdio false b.pins };
    is_data_high = λ b. gpio.swdio_is_high b.pins;
    set_data_output = λ b. record b { pins = gpio.set_output_enable true b.pins };
    set_data_input = λ b. record b { pins = gpio.set_output_enable false b.pins };
    clock_cycle = λ b. set_clk true (set_clk false b);
    set_reset = set_reset;
  }
