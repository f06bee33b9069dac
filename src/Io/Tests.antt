-- ===== src/Io/Tests.antt =====
-- Runs of probe/io/bitbang.rs.
use esp32_dap_proxy.Prelude.{
  ◌/◌, ◌≡◌, refl, Bool, true, false, List, [], ◌∷◌, ◌++◌, arith, if◌then◌else◌,
}
use esp32_dap_proxy.Io.{write_u32}
use esp32_dap_proxy.Io.Bits.{is_odd}
use esp32_dap_proxy.Io.BitBang.{Gpio, BitBangIo, bit_bang}
use esp32_dap_proxy.Io.BitBang.Wave.{Sampled, make_request-edges}
use esp32_dap_proxy.Swd.{make_request}
use esp32_dap_proxy.Swd.Request.{header}

-- Pins that do what they are told, and a target that samples SWDIO when SWCLK rises.
record Pins : Type 0 where
  clk : Bool
  dio : Bool
  enabled : Bool
  edges : List Bool

abbrev set_swclk : Bool → Pins → Pins
set_swclk true s = record s {
  clk = true;
  edges = if s.clk then s.edges else s.edges ++ (s.dio ∷ []);
}
set_swclk false s = record s { clk = false }

abbrev gpio : Gpio
gpio = record {
  State = Pins;
  set_swclk = set_swclk;
  set_swdio = λ b s. record s { dio = b };
  swdio_is_high = λ s. s.dio;
  set_output_enable = λ b s. record s { enabled = b };
  set_input_enable = λ b s. s;
  apply_output_config = λ s. s;
  apply_input_config = λ s. s;
  set_reset = λ b s. s;
  apply_reset_config = λ s. s;
}

clk-set_swclk_lem : (b : Bool) (s : Pins) → (set_swclk b s).clk ≡ b
clk-set_swclk_lem true s = refl
clk-set_swclk_lem false s = refl

enabled-set_swclk_lem : (b : Bool) (s : Pins) → (set_swclk b s).enabled ≡ s.enabled
enabled-set_swclk_lem true s = refl
enabled-set_swclk_lem false s = refl

dio-set_swclk_lem : (b : Bool) (s : Pins) → s.enabled ≡ true → (set_swclk b s).dio ≡ s.dio
dio-set_swclk_lem true s h = refl
dio-set_swclk_lem false s h = refl

edges-rising_lem : (s : Pins) → s.clk ≡ false → (set_swclk true s).edges ≡ s.edges ++ (s.dio ∷ [])
edges-rising_lem s h = rw h

abbrev wave : Sampled gpio
wave = record {
  clk = λ s. s.clk;
  dio = λ s. s.dio;
  enabled = λ s. s.enabled;
  edges = λ s. s.edges;
  clk-set_swclk = clk-set_swclk_lem;
  enabled-set_swclk = enabled-set_swclk_lem;
  dio-set_swclk = dio-set_swclk_lem;
  edges-falling = λ s. refl;
  edges-rising = edges-rising_lem;
  enabled-set_swdio = λ b s. refl;
  dio-set_swdio = λ b s h. refl;
  edges-set_swdio = λ b s. refl;
}

abbrev idle_pins : BitBangIo gpio
idle_pins = record {
  pins = record { clk = true; dio = true; enabled = true; edges = [] };
  delay = 20;
  reset = false;
}

make_request-edges_example :
    (write_u32 (bit_bang gpio) (make_request false true 0x04) 8 idle_pins).pins.edges
    ≡ header false true (is_odd (0x04 / 4)) (is_odd (0x04 / 8))
make_request-edges_example =
    make_request-edges gpio wave false true 0x04 idle_pins refl (omega arith)
