-- ===== src/Usbip/Control/Answer.antt =====
-- What `ep0_control` of usbip.rs answers.
use esp32_dap_proxy.Prelude.{
  ℕ, ◌/◌, ◌^◌, ◌≤◌, min, Option, none, some, List, ◌==◌, arith, length, length-take, get_or,
  bit_and, Bool-cases, inl, inr,
}
use esp32_dap_proxy.Prelude.Bytes.{u16_from_le_bytes}
use esp32_dap_proxy.Descriptors.{string_descriptor}
use esp32_dap_proxy.Usbip.Control.{control_payload, control_answer, ep0_control, epipe}

abbrev pub FitsFifty : Option (List ℕ) → Type 0
FitsFifty none = Unit
FitsFifty (some p) = length p ≤ 50

string_descriptor-FitsFifty : (index : ℕ) → FitsFifty (string_descriptor index)
unfolding string_descriptor
string_descriptor-FitsFifty index = ground arith

pub control_payload-FitsFifty :
    (kind request high low : ℕ) → FitsFifty (control_payload kind request high low)
unfolding control_payload
control_payload-FitsFifty kind request high low = ground (arith, string_descriptor-FitsFifty low)

control_answer_short :
    (w_length : ℕ) (p : Option (List ℕ))
    → FitsFifty p
    → (length (control_answer w_length p).1 ≤ 50)
      × (length (control_answer w_length p).1 ≤ w_length)
control_answer_short w_length none h = (omega arith, omega arith)
control_answer_short w_length (some p) h = (
  omega (arith, length-take (min (length p) w_length) p),
  omega (arith, length-take (min (length p) w_length) p),
)

abbrev pub w_length_of : List ℕ → ℕ
w_length_of setup = u16_from_le_bytes (get_or setup 6 0) (get_or setup 7 0)

pub ep0_control_short :
    (setup : List ℕ)
    → (length (ep0_control setup).1 ≤ 50) × (length (ep0_control setup).1 ≤ w_length_of setup)
unfolding ep0_control
ep0_control_short setup =
    let w_value = u16_from_le_bytes (get_or setup 2 0) (get_or setup 3 0) in
    let p =
      control_payload (get_or setup 0 0) (get_or setup 1 0) (w_value / 2 ^ 8)
        (bit_and w_value 0xFF) in
    let short = control_answer_short (w_length_of setup) p (
      control_payload-FitsFifty (get_or setup 0 0) (get_or setup 1 0) (w_value / 2 ^ 8)
        (bit_and w_value 0xFF)) in
    elim (Bool-cases (bit_and (get_or setup 0 0) 0x80 == 0)) [
      | inl out ↦ rw out (ground arith)
      | inr inward ↦ rw inward short
    ]

control_answer_status : (w_length : ℕ) (p : Option (List ℕ)) → (control_answer w_length p).0 ≤ epipe
control_answer_status w_length none = omega arith
control_answer_status w_length (some p) = omega arith

pub ep0_control_status : (setup : List ℕ) → (ep0_control setup).0 ≤ epipe
unfolding ep0_control
ep0_control_status setup =
    let w_value = u16_from_le_bytes (get_or setup 2 0) (get_or setup 3 0) in
    let p =
      control_payload (get_or setup 0 0) (get_or setup 1 0) (w_value / 2 ^ 8)
        (bit_and w_value 0xFF) in
    let answered = control_answer_status (w_length_of setup) p in
    elim (Bool-cases (bit_and (get_or setup 0 0) 0x80 == 0)) [
      | inl out ↦ rw out (ground arith)
      | inr inward ↦ rw inward answered
    ]
