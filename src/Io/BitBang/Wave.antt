-- ===== src/Io/BitBang/Wave.antt =====
-- What a debug target sees of the pins that bitbang.rs drives.
use esp32_dap_proxy.Prelude.{
  ℕ, ◌/◌, ◌<◌, ◌≡◌, ap, ◌∙◌, Bool, true, false, List, [], ◌∷◌, ◌++◌, append-nil, append_assoc,
}
use esp32_dap_proxy.Io.{write_bit, write_u32}
use esp32_dap_proxy.Io.Bits.{to_bits, is_odd}
use esp32_dap_proxy.Io.Words.{send, write_u32-send}
use esp32_dap_proxy.Io.BitBang.{Gpio, BitBangIo, bit_bang}
use esp32_dap_proxy.Swd.{make_request}
use esp32_dap_proxy.Swd.Request.{header, make_request-header}

-- A target that samples SWDIO at the rising edges of SWCLK, on pins that do what they are told:
-- `edges` lists what it has sampled, and while the output is enabled SWDIO has the level set last.
pub record Sampled (gpio : Gpio) : Type 0 where
  pub clk : gpio.State → Bool
  pub dio : gpio.State → Bool
  pub enabled : gpio.State → Bool
  pub edges : gpio.State → List Bool
  pub clk-set_swclk : (b : Bool) (s : gpio.State) → clk (gpio.set_swclk b s) ≡ b
  pub enabled-set_swclk : (b : Bool) (s : gpio.State) → enabled (gpio.set_swclk b s) ≡ enabled s
  pub dio-set_swclk :
      (b : Bool) (s : gpio.State) → enabled s ≡ true → dio (gpio.set_swclk b s) ≡ dio s
  pub edges-falling : (s : gpio.State) → edges (gpio.set_swclk false s) ≡ edges s
  pub edges-rising :
      (s : gpio.State) → clk s ≡ false → edges (gpio.set_swclk true s) ≡ edges s ++ (dio s ∷ [])
  pub enabled-set_swdio : (b : Bool) (s : gpio.State) → enabled (gpio.set_swdio b s) ≡ enabled s
  pub dio-set_swdio : (b : Bool) (s : gpio.State) → enabled s ≡ true → dio (gpio.set_swdio b s) ≡ b
  pub edges-set_swdio : (b : Bool) (s : gpio.State) → edges (gpio.set_swdio b s) ≡ edges s

module _ (gpio : Gpio) (wave : Sampled gpio) where
  open wave use {enabled, edges}

  -- A bit: SWDIO is set while SWCLK stays, and sampled at the one rising edge.
  cycle-edges :
      (b : Bool) (s : gpio.State)
      → enabled s ≡ true
      → let s' = gpio.set_swclk true (gpio.set_swclk false (gpio.set_swdio b s)) in
        (edges s' ≡ edges s ++ (b ∷ [])) × (enabled s' ≡ true)
  cycle-edges b s h =
      let s₁ = gpio.set_swdio b s in
      let s₂ = gpio.set_swclk false s₁ in
      let on₁ : enabled s₁ ≡ true = wave.enabled-set_swdio b s ∙ h in
      let level : wave.dio s₂ ≡ b = wave.dio-set_swclk false s₁ on₁ ∙ wave.dio-set_swdio b s h in
      let before : edges s₂ ≡ edges s = wave.edges-falling s₁ ∙ wave.edges-set_swdio b s in
      (
        wave.edges-rising s₂ (wave.clk-set_swclk false s₁) ∙ rw (before, level),
        wave.enabled-set_swclk true s₂ ∙ wave.enabled-set_swclk false s₁ ∙ on₁,
      )

  write_bit-edges :
      (b : Bool) (io : BitBangIo gpio)
      → enabled io.pins ≡ true
      → let io' = write_bit (bit_bang gpio) b io in
        (edges io'.pins ≡ edges io.pins ++ (b ∷ [])) × (enabled io'.pins ≡ true)
  unfolding write_bit
  write_bit-edges true io h = cycle-edges true io.pins h
  write_bit-edges false io h = cycle-edges false io.pins h

  send-edges :
      (bs : List Bool) (io : BitBangIo gpio)
      → enabled io.pins ≡ true
      → edges (send (bit_bang gpio) bs io).pins ≡ edges io.pins ++ bs
  unfolding send
  send-edges [] io h = rw append-nil
  send-edges (b ∷ bs) io h =
      let (more, on) = write_bit-edges b io h in
      send-edges bs (write_bit (bit_bang gpio) b io) on
      ∙ ap (λ e. e ++ bs) more
      ∙ append_assoc (edges io.pins) (b ∷ []) bs

  -- With the output enabled, a target that samples SWDIO at the rising edges of SWCLK gets exactly
  -- the bits of the word that is written, lowest first.
  pub write_u32-edges :
      (n value : ℕ) (io : BitBangIo gpio)
      → enabled io.pins ≡ true
      → edges (write_u32 (bit_bang gpio) value n io).pins ≡ edges io.pins ++ to_bits n value
  write_u32-edges n value io h =
      rw (write_u32-send (bit_bang gpio) n value io) (send-edges (to_bits n value) io h)

  -- With the output enabled, a target that samples SWDIO at the rising edges of SWCLK gets the header
  -- of the SWD protocol for the request that is sent: start, the access, bits 2 and 3 of the address,
  -- their parity, stop and park. The address is a byte.
  pub make_request-edges :
      (apndp rnw : Bool) (addr : ℕ) (io : BitBangIo gpio)
      → enabled io.pins ≡ true
      → addr < 256
      → edges (write_u32 (bit_bang gpio) (make_request apndp rnw addr) 8 io).pins
        ≡ edges io.pins ++ header apndp rnw (is_odd (addr / 4)) (is_odd (addr / 8))
  make_request-edges apndp rnw addr io h small =
      write_u32-edges 8 (make_request apndp rnw addr) io h
      ∙ ap (λ bits. edges io.pins ++ bits) (make_request-header apndp rnw addr small)
