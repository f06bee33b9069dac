-- ===== src/Swd/Transfer.antt =====
-- A transfer of transport/swd.rs on a debug line: its outcome by the levels that the target drives,
-- cycle by cycle, and the number of cycles that it takes.
use esp32_dap_proxy.Prelude.{
  ℕ, zero, suc, ◌+◌, ◌%◌, ◌^◌, ◌<◌, ◌≡◌, refl, ap, ◌∙◌, Bool, true, false, Option, none, [], ◌∷◌,
  xor, ◌==◌, arith, if◌then◌else◌, Result, ok, err, length, Bool-cases, inl, inr,
}
use mathlib.Core.Option
use esp32_dap_proxy.Transport.{TransportError, wait, fault, unknown, parity, Outcome}
use esp32_dap_proxy.Io.{Io, read_bit, write_bit, read_u32, write_u32}
use esp32_dap_proxy.Io.Bits.{of_bits, of_bits-lt, to_bits, of_bits-to_bits}
use esp32_dap_proxy.Io.Line.{
  Line, levels, clock-write_u32, clock-write_bit, read_u32-levels, read_bit-level,
}
use esp32_dap_proxy.Swd.{
  Swd, idle, turnaround, has_odd_parity, read_phase, write_phase, give_up, after_ack, transfer,
  make_request, read_dp,
}

-- The protocol, by cycles from the start: 8 for the request, 1 to turn the line round, 3 for the
-- acknowledgement; then 32 for the word, 1 for its parity and 1 to turn the line round (before the
-- word, if it is written), and 8 idle ones, which a parity error does without.
abbrev ack_at : (ℕ → Bool) → ℕ → ℕ
ack_at level start = of_bits (levels level 3 (start + 9))

abbrev word_at : (ℕ → Bool) → ℕ → ℕ
word_at level start = of_bits (levels level 32 (start + 12))

abbrev pub Reply : Type 0
Reply = Result ℕ TransportError × ℕ

-- A reply, with the count of cycles.
unfoldable pub read_reply : (ℕ → Bool) → ℕ → Reply
read_reply level start =
    let word = word_at level start in
    if xor (level (start + 44)) (has_odd_parity word) then (err parity, 46) else (ok word, 54)

unfoldable pub reply_to : ℕ → (ℕ → Bool) → ℕ → Bool → Option ℕ → Reply
reply_to ack level start rnw value =
    if ack == 1
    then (if rnw then read_reply level start else (ok (Option.get_or value 0), 54))
    else if ack == 2
    then (err wait, 21)
    else if ack == 4
    then (err fault, 21)
    else (err (unknown ack), 21)

unfoldable pub reply : (ℕ → Bool) → ℕ → Bool → Option ℕ → Reply
unfolding reply_to read_reply
reply level start rnw value = reply_to (ack_at level start) level start rnw value

length-levels : (level : ℕ → Bool) (n c : ℕ) → length (levels level n c) ≡ n
unfolding levels
length-levels level zero c = refl
length-levels level (suc n) c = ap suc (length-levels level n (c + 1))

ack_at-lt : (level : ℕ → Bool) (start : ℕ) → ack_at level start < 8
ack_at-lt level start =
    rw (length-levels level 3 (start + 9)) at (of_bits-lt (levels level 3 (start + 9)))

xor_self : (b : Bool) → xor b b ≡ false
unfolding xor
xor_self true = refl
xor_self false = refl

reply-word :
    (level : ℕ → Bool) (start v : ℕ)
    → v < 2 ^ 32
    → levels level 3 (start + 9) ≡ true ∷ false ∷ false ∷ []
    → levels level 32 (start + 12) ≡ to_bits 32 v
    → level (start + 44) ≡ has_odd_parity v
    → reply level start true none ≡ (ok v, 54)
unfolding reply
reply-word level start v fits ack bits odd =
    let a : ack_at level start ≡ 1 = ap of_bits ack ∙ unfold of_bits in refl in
    let w : word_at level start ≡ v = ap of_bits bits ∙ of_bits-to_bits 32 v fits in
    rw (a, w, odd, xor_self (has_odd_parity v))

module _ (io : Io) (line : Line io) where
  open line use {clock, level}

  turnaround-clock : (s : Swd io) → clock (turnaround io s).pins ≡ clock s.pins + 1
  unfolding turnaround
  turnaround-clock s = ground (
    arith,
    line.clock-clock_cycle (io.set_data_input s.pins),
    line.clock-set_data_input s.pins,
    line.clock-set_data_output (io.clock_cycle s.pins),
    line.clock-clock_cycle s.pins,
  )

  idle-clock : (s : Swd io) → clock (idle io s).pins ≡ clock s.pins + 8
  unfolding idle
  idle-clock s = clock-write_u32 io line 8 0 s.pins

  -- A result and the count of the clock after it are those of a reply to a transfer from `start`.
  Answers : ℕ → Reply → Outcome (Swd io) ℕ → Type 0
  Answers start r out = (out.0 ≡ r.0) × (clock out.1.pins ≡ start + r.1)

  read_phase-Answers :
      (start : ℕ) (s : Swd io)
      → clock s.pins ≡ start + 12
      → Answers start (read_reply level start) (read_phase io s)
  unfolding read_phase read_reply Answers
  read_phase-Answers start s h =
      let (w, tick) = read_u32-levels io line 32 s.pins in
      let pins₁ = (read_u32 io 32 s.pins).1 in
      let word = w ∙ ap (λ c. of_bits (levels level 32 c)) h in
      let tick₁ : clock pins₁ ≡ start + 44 = omega arith in
      let (b, tick₂) = read_bit-level io line pins₁ in
      let bit = b ∙ ap level tick₁ in
      let turned = turnaround-clock (record s { pins = (read_bit io pins₁).1 }) in
      let rested = idle-clock (turnaround io (record s { pins = (read_bit io pins₁).1 })) in
      elim (Bool-cases (xor (level (start + 44)) (has_odd_parity (word_at level start)))) [
        | inl t ↦ rw (word, bit, t) (refl, omega arith)
        | inr t ↦ rw (word, bit, t) (refl, omega arith)
      ]

  write_phase-Answers :
      (start : ℕ) (value : Option ℕ) (s : Swd io)
      → clock s.pins ≡ start + 12
      → Answers start (ok (Option.get_or value 0), 54) (write_phase io value s)
  unfolding write_phase Answers
  write_phase-Answers start value s h =
      let word = Option.get_or value 0 in
      let s₁ = turnaround io s in
      let pins₁ = write_u32 io word 32 s₁.pins in
      let pins₂ = write_bit io (has_odd_parity word) pins₁ in
      (
        refl,
        omega (
          arith,
          turnaround-clock s,
          clock-write_u32 io line 32 word s₁.pins,
          clock-write_bit io line (has_odd_parity word) pins₁,
          idle-clock (record s₁ { pins = pins₂ }),
        ),
      )

  give_up-Answers :
      (start : ℕ) (e : TransportError) (s : Swd io)
      → clock s.pins ≡ start + 12
      → Answers start (err e, 21) (give_up io e s)
  unfolding give_up Answers
  give_up-Answers start e s h =
      (refl, omega (arith, turnaround-clock s, idle-clock (turnaround io s)))

  after_ack-Answers :
      (start ack : ℕ) (rnw : Bool) (value : Option ℕ) (s : Swd io)
      → clock s.pins ≡ start + 12
      → Answers start (reply_to ack level start rnw value) (after_ack io rnw value ack s)
  unfolding after_ack reply_to
  after_ack-Answers start ack rnw value s h = elim (Bool-cases (ack == 1)) [
    | inl ok_ack ↦ rw ok_ack (phase rnw)
    | inr no_ok ↦ elim (Bool-cases (ack == 2)) [
      | inl wait_ack ↦ rw (no_ok, wait_ack) (give_up-Answers start wait s h)
      | inr no_wait ↦ elim (Bool-cases (ack == 4)) [
        | inl fault_ack ↦ rw (no_ok, no_wait, fault_ack) (give_up-Answers start fault s h)
        | inr no_fault ↦ rw (no_ok, no_wait, no_fault) (give_up-Answers start (unknown ack) s h)
      ]
    ]
  ]
    where
      phase :
          (r : Bool)
          → Answers start
              (if r then read_reply level start else (ok (Option.get_or value 0), 54))
              (if r then read_phase io s else write_phase io value s)
      phase true = read_phase-Answers start s h
      phase false = write_phase-Answers start value s h

  -- On a line whose level changes with the clock only, a transfer returns what the levels say at the
  -- cycles of the acknowledgement, of the word and of its parity, and takes as many cycles as the
  -- protocol has for that reply.
  pub transfer-reply :
      (apndp rnw : Bool) (addr : ℕ) (value : Option ℕ) (s : Swd io)
      → let r = reply level (clock s.pins) rnw value in
        let out = transfer io apndp rnw addr value s in
        (out.0 ≡ r.0) × (clock out.1.pins ≡ clock s.pins + r.1)
  unfolding transfer reply Answers
  transfer-reply apndp rnw addr value s =
      let start = clock s.pins in
      let s₁ = record s { pins = write_u32 io (make_request apndp rnw addr) 8 s.pins } in
      let s₂ = turnaround io s₁ in
      let sent = clock-write_u32 io line 8 (make_request apndp rnw addr) s.pins in
      let turned = turnaround-clock s₁ in
      let tick₀ : clock s₂.pins ≡ start + 9 = omega arith in
      let (a, tick) = read_u32-levels io line 3 s₂.pins in
      let ack : (read_u32 io 3 s₂.pins).0 % 2 ^ 8 ≡ ack_at level start =
        omega (arith, a ∙ ap (λ c. of_bits (levels level 3 c)) tick₀, ack_at-lt level start) in
      rw ack (
        after_ack-Answers start (ack_at level start) rnw value
          (record s₂ { pins = (read_u32 io 3 s₂.pins).1 }) (omega arith))

  -- If the target acknowledges a read with OK and drives the 32 bits of a word, lowest first, and
  -- their parity, the read returns that word.
  pub read_dp-word :
      (addr v : ℕ) (s : Swd io)
      → v < 2 ^ 32
      → levels level 3 (clock s.pins + 9) ≡ true ∷ false ∷ false ∷ []
      → levels level 32 (clock s.pins + 12) ≡ to_bits 32 v
      → level (clock s.pins + 44) ≡ has_odd_parity v
      → ((read_dp io addr s).0 ≡ ok v) × (clock (read_dp io addr s).1.pins ≡ clock s.pins + 54)
  unfolding read_dp
  read_dp-word addr v s fits ack bits odd =
      let (r, ticks) = transfer-reply false true addr none s in
      let e : reply level (clock s.pins) true none ≡ (ok v, 54) =
        reply-word level (clock s.pins) v fits ack bits odd in
      (r ∙ ap (λ (t : Reply). t.0) e, ticks ∙ ap (λ (t : Reply). clock s.pins + t.1) e)
