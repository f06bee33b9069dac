-- ===== src/Swd/Bus.antt =====
-- The bus discipline of transport/swd.rs, over any pins whose output enable can be observed.
use esp32_dap_proxy.Prelude.{
  ℕ, zero, suc, min, ◌+◌, ◌*◌, ◌/◌, ◌%◌, ◌^◌, ◌<◌, ◌≡◌, refl, ◌∙◌, Bool, true, false, not, Option,
  List, arith, ok, err, bit_and, bit_or, ◌==◌, get_or, length, Bool-cases, inl, inr,
}
use esp32_dap_proxy.Prelude.Bytes.{IsByte}
use esp32_dap_proxy.Prelude.Bits.{and-le, or-lt}
use esp32_dap_proxy.Transport.{Outcome}
use esp32_dap_proxy.Io.{Io, read_u32, write_bit, write_u32}
use esp32_dap_proxy.Io.Drive.{Drive, output-line_reset, output-write_bit, output-write_u32}
use esp32_dap_proxy.Swd.{
  Swd, idle, turnaround, read_phase, write_phase, give_up, after_ack, transfer, make_request, init,
  sequence_from, swj_sequence, swj_pins, read_dp, write_dp, read_ap, write_ap, discard, then_rdbuff,
}
use esp32_dap_proxy.Swd.Output.{transfer-Agrees}

masked_pins : (last out : ℕ) → bit_or (bit_and last 0x7F) (bit_and out 0x80) < 256
masked_pins last out =
    or-lt 8 (bit_and last 0x7F) (bit_and out 0x80) (omega (arith, and-le last 0x7F))
      (omega (arith, and-le out 0x80))

module _ (io : Io) (drive : Drive io) where
  open drive use {output, output-set_reset}

  -- The probe drives the data line: its output is enabled, the transport's flag says so, and the pins
  -- that it reports fit a byte.
  pub record IsReady (s : Swd io) : Type 0 where
    pub output_on : output s.pins ≡ true
    pub drives : s.driving ≡ true
    pub pins_fit : IsByte s.last_pins

  after_ack-driving :
      (rnw : Bool) (value : Option ℕ) (ack : ℕ) (s : Swd io)
      → s.driving ≡ false
      → ((after_ack io rnw value ack s).1.driving ≡ true)
        × ((after_ack io rnw value ack s).1.last_pins ≡ s.last_pins)
  unfolding after_ack give_up read_phase write_phase turnaround idle
  after_ack-driving rnw value ack s h = ground arith

  turnaround-driving :
      (s : Swd io)
      → s.driving ≡ true
      → ((turnaround io s).driving ≡ false) × ((turnaround io s).last_pins ≡ s.last_pins)
  unfolding turnaround
  turnaround-driving s h = rw h (refl, refl)

  pub transfer-IsReady :
      (apndp rnw : Bool) (addr : ℕ) (value : Option ℕ) (s : Swd io)
      → IsReady s
      → IsReady (transfer io apndp rnw addr value s).1
  unfolding transfer
  transfer-IsReady apndp rnw addr value s h =
      let s₁ = record s { pins = write_u32 io (make_request apndp rnw addr) 8 s.pins } in
      let turned = turnaround-driving s₁ h.drives in
      let read = read_u32 io 3 (turnaround io s₁).pins in
      let s₃ = record (turnaround io s₁) { pins = read.1 } in
      let (drives, kept) = after_ack-driving rnw value (read.0 % 2 ^ 8) s₃ turned.0 in
      record {
        output_on = transfer-Agrees io drive apndp rnw addr value s ∙ drives;
        drives = drives;
        pins_fit = rw (kept, turned.1) h.pins_fit;
      }

  discard-IsReady : (r : Outcome (Swd io) ℕ) → IsReady r.1 → IsReady (discard io r).1
  discard-IsReady (ok v, s) h = h
  discard-IsReady (err e, s) h = h

  then_rdbuff-IsReady : (r : Outcome (Swd io) ℕ) → IsReady r.1 → IsReady (then_rdbuff io r).1
  unfolding read_dp
  then_rdbuff-IsReady (ok v, s) h = transfer-IsReady _ _ _ _ s h
  then_rdbuff-IsReady (err e, s) h = h

  output-sequence_from :
      (n i : ℕ) (bytes : List ℕ) (pins : io.State)
      → output (sequence_from io n i bytes pins) ≡ output pins
  unfolding sequence_from
  output-sequence_from zero i bytes pins = refl
  output-sequence_from (suc n) i bytes pins =
      let bit = not (bit_and (get_or bytes (i / 8) 0 / 2 ^ (i % 8)) 1 == 0) in
      output-sequence_from n (i + 1) bytes (write_bit io bit pins)
      ∙ output-write_bit io drive bit pins

  swj_pins-IsReady :
      (out sel wait_ms : ℕ) (s : Swd io) → IsReady s → IsReady (swj_pins io out sel wait_ms s).1
  unfolding swj_pins
  swj_pins-IsReady out sel wait_ms s h = elim (Bool-cases (bit_and sel 0x80 == 0)) [
    | inl kept ↦ rw kept h
    | inr set ↦ rw set (record {
      output_on = output-set_reset _ _ ∙ h.output_on;
      drives = h.drives;
      pins_fit = masked_pins s.last_pins out;
    })
  ]

  -- The state after each of the transport's operations.
  pub record KeepsReady (s : Swd io) : Type 0 where
    pub after_init : IsReady (init io s).1
    pub after_sequence : (count : ℕ) (bytes : List ℕ) → IsReady (swj_sequence io count bytes s).1
    pub after_pins : (out sel wait_ms : ℕ) → IsReady (swj_pins io out sel wait_ms s).1
    pub after_read_dp : (addr : ℕ) → IsReady (read_dp io addr s).1
    pub after_write_dp : (addr v : ℕ) → IsReady (write_dp io addr v s).1
    pub after_read_ap : (select addr : ℕ) → IsReady (read_ap io select addr s).1
    pub after_write_ap : (select addr v : ℕ) → IsReady (write_ap io select addr v s).1

  pub swd-KeepsReady : (s : Swd io) → IsReady s → KeepsReady s
  unfolding init idle swj_sequence swj_pins read_dp write_dp read_ap write_ap
  swd-KeepsReady s h = record {
    after_init = record {
      output_on = output-write_u32 io drive 0x00 8 _ ∙ output-line_reset io drive _;
      drives = refl;
      pins_fit = h.pins_fit;
    };
    after_sequence = λ count bytes. record {
      output_on = output-sequence_from (min count (length bytes * 8)) 0 bytes s.pins ∙ h.output_on;
      drives = h.drives;
      pins_fit = h.pins_fit;
    };
    after_pins = λ out sel wait_ms. swj_pins-IsReady out sel wait_ms s h;
    after_read_dp = λ addr. transfer-IsReady _ _ _ _ s h;
    after_write_dp = λ addr v. discard-IsReady _ (transfer-IsReady _ _ _ _ s h);
    after_read_ap = λ select addr. then_rdbuff-IsReady _ (transfer-IsReady _ _ _ _ s h);
    after_write_ap = λ select addr v. discard-IsReady _ (transfer-IsReady _ _ _ _ s h);
  }
