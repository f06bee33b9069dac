-- ===== src/Swd/Waits.antt =====
-- A target on a debug line that answers a read of transport/swd.rs with WAIT for a while.
use esp32_dap_proxy.Prelude.{ℕ, zero, suc, ◌+◌, ◌≡◌, refl, ap, ◌∙◌, true, false, none, [], ◌∷◌, err}
use esp32_dap_proxy.Transport.{wait}
use esp32_dap_proxy.Io.{Io}
use esp32_dap_proxy.Io.Bits.{of_bits, to_bits}
use esp32_dap_proxy.Io.Line.{Line, levels}
use esp32_dap_proxy.Swd.{Swd, has_odd_parity, read_dp}
use esp32_dap_proxy.Swd.Transfer.{Reply, reply, reply_to, transfer-reply}

module _ (io : Io) (line : Line io) where
  open line use {clock, level}

  -- To a request that starts at a cycle, the target answers OK with a word and its parity.
  pub record Drives (start v : ℕ) : Type 0 where
    pub ack : levels level 3 (start + 9) ≡ true ∷ false ∷ false ∷ []
    pub word : levels level 32 (start + 12) ≡ to_bits 32 v
    pub odd : level (start + 44) ≡ has_odd_parity v

  -- Or WAIT.
  abbrev pub Waits : ℕ → Type 0
  Waits start = levels level 3 (start + 9) ≡ false ∷ true ∷ false ∷ []

  -- It answers WAIT so many times, to requests that follow each other, and then OK.
  abbrev pub DrivesAfter : (waits start v : ℕ) → Type 0
  DrivesAfter zero start v = Drives start v
  DrivesAfter (suc k) start v = Waits start × DrivesAfter k (start + 21) v

  -- On WAIT, a read takes 21 cycles and returns the error.
  pub read_dp-wait :
      (addr : ℕ) (s : Swd io)
      → Waits (clock s.pins)
      → ((read_dp io addr s).0 ≡ err wait) × (clock (read_dp io addr s).1.pins ≡ clock s.pins + 21)
  unfolding read_dp
  read_dp-wait addr s h =
      let (r, ticks) = transfer-reply io line false true addr none s in
      let e : reply level (clock s.pins) true none ≡ (err wait, 21) =
        unfold reply reply_to in
        ap (λ bs. reply_to (of_bits bs) level (clock s.pins) true none) h
        ∙ unfold of_bits in refl in
      (r ∙ ap (λ (t : Reply). t.0) e, ticks ∙ ap (λ (t : Reply). clock s.pins + t.1) e)
