-- ===== src/Swd/Tests.antt =====
-- Runs of transport/swd.rs over a line on which a target acknowledges with OK and drives a word.
use esp32_dap_proxy.Prelude.{
  ℕ, ◌+◌, ◌*◌, ◌/◌, ◌^◌, ◌≡◌, refl, Bool, true, false, none, [], ◌∷◌, ok, take,
}
use esp32_dap_proxy.Io.{Io}
use esp32_dap_proxy.Io.Bits.{count_ones, is_odd, to_bits}
use esp32_dap_proxy.Io.Line.{Line, levels}
use esp32_dap_proxy.Swd.{Swd, new, has_odd_parity, transfer, swj_sequence}
use esp32_dap_proxy.Swd.Transfer.{reply, transfer-reply}
use esp32_dap_proxy.Swd.Sequence.{bits_of, swj_sequence-send}
use esp32_dap_proxy.Io.Words.{send}

abbrev word : ℕ
word = 0x2BA01477

-- From cycle 9 on: OK, the word, and its parity bit, which is low.
abbrev script : ℕ
script = 2 ^ 9 + word * 2 ^ 12

abbrev driven : ℕ → Bool
driven k = is_odd (script / 2 ^ k)

-- The state counts the rising edges of the clock.
abbrev pins : Io
pins = record {
  State = ℕ;
  set_clk_high = λ s. s + 1;
  set_clk_low = λ s. s;
  set_data_high = λ s. s;
  set_data_low = λ s. s;
  is_data_high = driven;
  set_data_output = λ s. s;
  set_data_input = λ s. s;
  clock_cycle = λ s. s + 1;
  set_reset = λ high s. s;
}

abbrev line : Line pins
line = record {
  clock = λ s. s;
  level = driven;
  clock-set_clk_high = λ s. refl;
  clock-set_clk_low = λ s. refl;
  clock-clock_cycle = λ s. refl;
  clock-set_data_high = λ s. refl;
  clock-set_data_low = λ s. refl;
  clock-set_data_output = λ s. refl;
  clock-set_data_input = λ s. refl;
  is_data_high-level = λ s. refl;
}

abbrev probe : Swd pins
probe = new pins 0

driven_ack : levels driven 3 9 ≡ true ∷ false ∷ false ∷ []
unfolding levels
driven_ack = refl

driven-word : levels driven 32 12 ≡ to_bits 32 word
unfolding levels to_bits
driven-word = refl

driven_parity : driven 44 ≡ has_odd_parity word
unfolding count_ones
driven_parity = refl

transfer-reply_example :
    let r = reply driven 0 true none in
    let out = transfer pins false true 0x00 none probe in (out.0 ≡ r.0) × (out.1.pins ≡ 0 + r.1)
transfer-reply_example = transfer-reply pins line false true 0x00 none probe

-- The twelve low bits of the sequence that selects SWD.
swj_sequence-send_example :
    swj_sequence pins 12 (0x9E ∷ 0xE7 ∷ []) probe
    ≡ (ok tt, record probe { pins = send pins (take 12 (bits_of (0x9E ∷ 0xE7 ∷ []))) probe.pins })
swj_sequence-send_example = swj_sequence-send pins 12 (0x9E ∷ 0xE7 ∷ []) probe
