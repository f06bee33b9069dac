-- ===== src/Io/BitBang/Enable.antt =====
-- The output enable of SWDIO behind probe/io/bitbang.rs. What esp-hal's pins do is an argument:
-- `set_output_enable` switches the driver of SWDIO, and no other method that `BitBangIo` calls
-- touches it.
use esp32_dap_proxy.Prelude.{ℕ, ◌≡◌, refl, ◌∙◌, Bool, true, false, Option, if◌then◌else◌}
use esp32_dap_proxy.Io.Drive.{Drive}
use esp32_dap_proxy.Io.BitBang.{Gpio, BitBangIo, bit_bang, new, set_reset}

pub record Enable (gpio : Gpio) : Type 0 where
  pub enabled : gpio.State → Bool
  pub enabled-set_output_enable :
      (on : Bool) (s : gpio.State) → enabled (gpio.set_output_enable on s) ≡ on
  pub enabled-set_swclk :
      (high : Bool) (s : gpio.State) → enabled (gpio.set_swclk high s) ≡ enabled s
  pub enabled-set_swdio :
      (high : Bool) (s : gpio.State) → enabled (gpio.set_swdio high s) ≡ enabled s
  pub enabled-set_reset :
      (high : Bool) (s : gpio.State) → enabled (gpio.set_reset high s) ≡ enabled s

module _ (gpio : Gpio) (enable : Enable gpio) where
  open enable use {
    enabled, enabled-set_output_enable, enabled-set_swclk, enabled-set_swdio, enabled-set_reset,
  }

  pub enabled-reset :
      (high : Bool) (b : BitBangIo gpio) → enabled (set_reset gpio high b).pins ≡ enabled b.pins
  enabled-reset high b =
      elim b.reset
        as (λ r.
          enabled (if r then record b { pins = gpio.set_reset high b.pins } else b).pins
          ≡ enabled b.pins) [ true ↦ enabled-set_reset high b.pins | false ↦ refl ]

  abbrev pub bit_bang_drive : Drive (bit_bang gpio)
  bit_bang_drive = record {
    output = λ b. enabled b.pins;
    output-set_data_output = λ b. enabled-set_output_enable true b.pins;
    output-set_data_input = λ b. enabled-set_output_enable false b.pins;
    output-set_clk_high = λ b. enabled-set_swclk true b.pins;
    output-set_clk_low = λ b. enabled-set_swclk false b.pins;
    output-set_data_high = λ b. enabled-set_swdio true b.pins;
    output-set_data_low = λ b. enabled-set_swdio false b.pins;
    output-clock_cycle = λ b. enabled-set_swclk true _ ∙ enabled-set_swclk false b.pins;
    output-set_reset = enabled-reset;
  }

  -- The pins as `new` leaves them.
  pub enabled-new :
      (delay : Option ℕ) (pins : gpio.State) → enabled (new gpio delay pins).pins ≡ true
  unfolding new
  enabled-new delay pins = enabled-set_output_enable true _
