-- ===== src/Swd.antt =====
-- esp-daplink-target/src/probe/transport/swd.rs: the SWD protocol over the pins of probe/io/mod.rs,
-- with the register addresses of probe/target/dp.rs. `_select_ap` and `_read_ap_raw`, which nothing
-- calls, are left out; `reset_state` is empty in the source.
pub mod Request
pub mod Transfer
pub mod Waits
pub mod Output
pub mod Bus
pub mod Typed
pub mod Keeps
pub mod Sequence
mod Tests
use esp32_dap_proxy.Prelude.{
  ℕ, zero, suc, ◌+◌, ◌*◌, ◌/◌, ◌%◌, ◌^◌, min, Bool, true, false, Option, none, some, List, [], ◌∷◌,
  not, xor, ◌==◌, bit_and, bit_or, if◌then◌else◌, length, get_or, ok, err,
}
use mathlib.Core.Option
use esp32_dap_proxy.Transport.{TransportError, wait, fault, unknown, parity, Outcome, Transport}
use esp32_dap_proxy.Io.{Io, line_reset, write_bit, read_bit, write_u32, read_u32}
use esp32_dap_proxy.Io.Bits.{bit_value, count_ones}

abbrev pub dp_rdbuff : ℕ
dp_rdbuff = 0x0C

-- `make_request`: the header of a transfer, in u8 arithmetic.
unfoldable pub make_request : Bool → Bool → ℕ → ℕ
unfolding count_ones
make_request apndp rnw addr =
    let apndp_bit = bit_value apndp * 2 ^ 1 in
    let rnw_bit = bit_value rnw * 2 ^ 2 in
    let addr_bits = bit_and (addr / 2 ^ 2) 0x03 * 2 ^ 3 in
    let payload = bit_or (bit_or apndp_bit rnw_bit) addr_bits in
    let parity_bit = count_ones payload % 2 * 2 ^ 5 in
    bit_or (bit_or (bit_or (bit_or 1 payload) parity_bit) (0 * 2 ^ 6)) (1 * 2 ^ 7)

-- `data.count_ones() % 2 != 0`
abbrev pub has_odd_parity : ℕ → Bool
has_odd_parity v = not (count_ones v % 2 == 0)

module _ (io : Io) where
  open io use {State, set_data_output, set_data_input, clock_cycle, set_reset}

  pub record Swd : Type 0 where
    pub pins : State
    pub driving : Bool
    pub last_pins : ℕ

  -- `Swd::new`
  abbrev pub new : State → Swd
  new pins = record { pins = pins; driving = true; last_pins = 0x80 }

  unfoldable pub idle : Swd → Swd
  idle s = record s { pins = write_u32 io 0x00 8 s.pins }

  unfoldable pub turnaround : Swd → Swd
  turnaround s =
      if s.driving
      then record s { pins = clock_cycle (set_data_input s.pins); driving = false }
      else record s { pins = set_data_output (clock_cycle s.pins); driving = true }

  -- The arm that reads the word.
  unfoldable pub read_phase : Swd → Outcome Swd ℕ
  read_phase s =
      let (word, pins₁) = read_u32 io 32 s.pins in
      let (bit, pins₂) = read_bit io pins₁ in
      let s' = turnaround (record s { pins = pins₂ }) in
      if xor bit (has_odd_parity word) then (err parity, s') else (ok word, idle s')

  -- The arm that writes the word.
  unfoldable pub write_phase : Option ℕ → Swd → Outcome Swd ℕ
  write_phase value s =
      let s₁ = turnaround s in
      let word = Option.get_or value 0 in
      let pins₁ = write_u32 io word 32 s₁.pins in
      let pins₂ = write_bit io (has_odd_parity word) pins₁ in
      (ok word, idle (record s₁ { pins = pins₂ }))

  -- What an acknowledgement other than OK leads to.
  unfoldable pub give_up : TransportError → Swd → Outcome Swd ℕ
  give_up e s = (err e, idle (turnaround s))

  -- The match on `ack`, and the phase that follows it.
  unfoldable pub after_ack : Bool → Option ℕ → ℕ → Swd → Outcome Swd ℕ
  after_ack rnw value ack s =
      if ack == 0b001
      then (if rnw then read_phase s else write_phase value s)
      else if ack == 0b010
      then give_up wait s
      else if ack == 0b100
      then give_up fault s
      else give_up (unknown ack) s

  unfoldable pub transfer : Bool → Bool → ℕ → Option ℕ → Swd → Outcome Swd ℕ
  transfer apndp rnw addr value s =
      let s₁ = record s { pins = write_u32 io (make_request apndp rnw addr) 8 s.pins } in
      let s₂ = turnaround s₁ in
      let (ack, pins₃) = read_u32 io 3 s₂.pins in
      after_ack rnw value (ack % 2 ^ 8) (record s₂ { pins = pins₃ })

  -- impl Transport for Swd. `?` returns the error of the first part.
  unfoldable pub init : Swd → Outcome Swd (Unit {0})
  init s =
      let pins₁ = line_reset io s.pins in
      let pins₂ = write_u32 io 0xE79E 16 pins₁ in
      let pins₃ = line_reset io pins₂ in
      let s' = idle (record s { pins = pins₃ }) in (ok tt, record s' { driving = true })

  -- `for i in 0..n`, from round `i` on, `n` rounds left. `i / 8` stays below the length of the data.
  unfoldable pub sequence_from : ℕ → ℕ → List ℕ → State → State
  sequence_from zero i bytes pins = pins
  sequence_from (suc n) i bytes pins =
      let bit = not (bit_and (get_or bytes (i / 8) 0 / 2 ^ (i % 8)) 1 == 0) in
      sequence_from n (i + 1) bytes (write_bit io bit pins)

  unfoldable pub swj_sequence : ℕ → List ℕ → Swd → Outcome Swd (Unit {0})
  unfolding sequence_from
  swj_sequence count bytes s =
      let n = min count (length bytes * 8) in
      (ok tt, record s { pins = sequence_from n 0 bytes s.pins })

  unfoldable pub swj_pins : ℕ → ℕ → ℕ → Swd → Outcome Swd ℕ
  swj_pins pin_out pin_sel wait_ms s =
      let s' = if bit_and pin_sel 0x80 == 0 then s else record s {
        pins = set_reset (not (bit_and pin_out 0x80 == 0)) s.pins;
        last_pins = bit_or (bit_and s.last_pins 0x7F) (bit_and pin_out 0x80);
      } in
      (ok s'.last_pins, s')

  unfoldable pub read_dp : ℕ → Swd → Outcome Swd ℕ
  read_dp addr s = transfer false true addr none s

  abbrev pub discard : Outcome Swd ℕ → Outcome Swd (Unit {0})
  discard (ok v, s) = (ok tt, s)
  discard (err e, s) = (err e, s)

  unfoldable pub write_dp : ℕ → ℕ → Swd → Outcome Swd (Unit {0})
  write_dp addr val s = discard (transfer false false addr (some val) s)

  abbrev pub then_rdbuff : Outcome Swd ℕ → Outcome Swd ℕ
  then_rdbuff (ok v, s) = read_dp dp_rdbuff s
  then_rdbuff (err e, s) = (err e, s)

  unfoldable pub read_ap : ℕ → ℕ → Swd → Outcome Swd ℕ
  read_ap select addr s = then_rdbuff (transfer true true addr none s)

  unfoldable pub write_ap : ℕ → ℕ → ℕ → Swd → Outcome Swd (Unit {0})
  write_ap select addr word s = discard (transfer true false addr (some word) s)

  abbrev pub swd_transport : Transport
  swd_transport = record {
    State = Swd;
    init = init;
    reset_state = λ s. s;
    swj_sequence = swj_sequence;
    swj_pins = swj_pins;
    read_dp = read_dp;
    write_dp = write_dp;
    read_ap = read_ap;
    write_ap = write_ap;
  }
