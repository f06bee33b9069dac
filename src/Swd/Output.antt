-- ===== src/Swd/Output.antt =====
-- The flag of transport/swd.rs that says who drives the data line, against the output enable of the
-- pins.
use esp32_dap_proxy.Prelude.{
  ℕ, ◌%◌, ◌^◌, ◌≡◌, ◌∙◌, Bool, true, false, xor, Option, arith, Bool-cases, inl, inr,
}
use esp32_dap_proxy.Transport.{TransportError, wait, fault, unknown}
use esp32_dap_proxy.Io.{Io, read_bit, read_u32, write_u32}
use esp32_dap_proxy.Io.Drive.{Drive, output-write_bit, output-write_u32}
use esp32_dap_proxy.Swd.{
  Swd, idle, turnaround, read_phase, write_phase, give_up, after_ack, transfer, make_request,
  has_odd_parity,
}

module _ (io : Io) (drive : Drive io) where
  open drive use {output, output-set_data_output, output-set_data_input, output-clock_cycle}

  -- The flag says whether the output is enabled.
  abbrev pub Agrees : Swd io → Type 0
  Agrees s = output s.pins ≡ s.driving

  turnaround-Agrees : (s : Swd io) → Agrees (turnaround io s)
  unfolding turnaround
  turnaround-Agrees s = elim (Bool-cases s.driving) [
    | inl driven ↦ rw driven (output-clock_cycle _ ∙ output-set_data_input _)
    | inr released ↦ rw released (output-set_data_output _)
  ]

  idle-Agrees : (s : Swd io) → Agrees s → Agrees (idle io s)
  unfolding idle
  idle-Agrees s h = output-write_u32 io drive 0x00 8 s.pins ∙ h

  read_phase-Agrees : (s : Swd io) → Agrees (read_phase io s).1
  unfolding read_phase
  read_phase-Agrees s =
      let (word, pins₁) = read_u32 io 32 s.pins in
      let (bit, pins₂) = read_bit io pins₁ in
      let turned = turnaround-Agrees (record s { pins = pins₂ }) in
      elim (Bool-cases (xor bit (has_odd_parity word))) [
        | inl odd ↦ rw odd turned
        | inr even ↦ rw even (idle-Agrees _ turned)
      ]

  write_phase-Agrees : (value : Option ℕ) (s : Swd io) → Agrees (write_phase io value s).1
  unfolding write_phase
  write_phase-Agrees value s =
      idle-Agrees _
        (output-write_bit io drive _ _ ∙ output-write_u32 io drive _ 32 _ ∙ turnaround-Agrees s)

  give_up-Agrees : (e : TransportError) (s : Swd io) → Agrees (give_up io e s).1
  unfolding give_up
  give_up-Agrees e s = idle-Agrees _ (turnaround-Agrees s)

  after_ack-Agrees :
      (rnw : Bool) (value : Option ℕ) (ack : ℕ) (s : Swd io)
      → Agrees (after_ack io rnw value ack s).1
  unfolding after_ack
  after_ack-Agrees true value ack s = ground (
    arith,
    read_phase-Agrees s,
    give_up-Agrees wait s,
    give_up-Agrees fault s,
    give_up-Agrees (unknown ack) s,
  )
  after_ack-Agrees false value ack s = ground (
    arith,
    write_phase-Agrees value s,
    give_up-Agrees wait s,
    give_up-Agrees fault s,
    give_up-Agrees (unknown ack) s,
  )

  -- After a transfer, however it ends, and whatever the flag and the pins were before it.
  pub transfer-Agrees :
      (apndp rnw : Bool) (addr : ℕ) (value : Option ℕ) (s : Swd io)
      → Agrees (transfer io apndp rnw addr value s).1
  unfolding transfer
  transfer-Agrees apndp rnw addr value s =
      let s₁ = record s { pins = write_u32 io (make_request apndp rnw addr) 8 s.pins } in
      let read = read_u32 io 3 (turnaround io s₁).pins in
      after_ack-Agrees rnw value (read.0 % 2 ^ 8) (record (turnaround io s₁) { pins = read.1 })
