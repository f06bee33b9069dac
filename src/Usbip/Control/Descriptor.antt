-- ===== src/Usbip/Control/Descriptor.antt =====
-- GET_DESCRIPTOR on the control endpoint of usbip.rs.
use esp32_dap_proxy.Prelude.{
  ℕ, ◌+◌, ◌*◌, ◌/◌, ◌^◌, ◌≤◌, ◌≡◌, refl, min, Option, none, some, List, [], ◌∷◌, ◌==◌, arith,
  length, take_all, get_or, bit_and, if◌then◌else◌, Bool-cases, inl, inr,
}
use esp32_dap_proxy.Prelude.Bits.{and-byte}
use esp32_dap_proxy.Prelude.Bytes.{IsByte, u16_from_le_bytes}
use esp32_dap_proxy.Descriptors.{string_descriptor}
use esp32_dap_proxy.Usbip.Control.{control_payload, control_answer, ep0_control}
use esp32_dap_proxy.Usbip.Control.Answer.{control_payload-FitsFifty, FitsFifty}

-- The bytes are of the type of descriptor asked for, and as many as they say themselves: in their
-- first byte, or, for a configuration, in the total length.
pub record IsAsked (kind : ℕ) (d : List ℕ) : Type 0 where
  pub of_kind : get_or d 1 0 ≡ kind
  pub whole :
      (if kind == 2 then u16_from_le_bytes (get_or d 2 0) (get_or d 3 0) else get_or d 0 0)
      ≡ length d

abbrev AskedOrNone : ℕ → Option (List ℕ) → Type 0
AskedOrNone kind none = Unit
AskedOrNone kind (some d) = IsAsked kind d

string_descriptor-IsAsked : (low : ℕ) → AskedOrNone 3 (string_descriptor low)
unfolding string_descriptor
string_descriptor-IsAsked low = ground arith

control_payload-IsAsked : (kind low : ℕ) → AskedOrNone kind (control_payload 0x80 0x06 kind low)
unfolding control_payload
control_payload-IsAsked kind low = elim (Bool-cases (kind == 1)) [
  | inl device ↦ let e : kind ≡ 1 = ground arith in rw e (record { of_kind = refl; whole = refl })
  | inr no_device ↦ elim (Bool-cases (kind == 2)) [
    | inl config ↦ let e : kind ≡ 2 = ground arith in rw e (record { of_kind = refl; whole = refl })
    | inr no_config ↦ elim (Bool-cases (kind == 3)) [
      | inl text ↦ let e : kind ≡ 3 = ground arith in rw e (string_descriptor-IsAsked low)
      | inr other ↦ rw (no_device, no_config, other) tt
    ]
  ]
]

control_answer-IsAsked :
    (kind w_length : ℕ) (p : Option (List ℕ))
    → AskedOrNone kind p
    → FitsFifty p
    → 50 ≤ w_length
    → (control_answer w_length p).0 ≡ 0
    → IsAsked kind (control_answer w_length p).1
control_answer-IsAsked kind w_length none h k l e = absurd (omega arith)
control_answer-IsAsked kind w_length (some d) h k l e =
    rw (take_all (min (length d) w_length) d (omega arith)) h

-- A GET_DESCRIPTOR that is answered with success and has room for 50 bytes gets a whole descriptor
-- of the type that it asks for, which gives its own length, or the total length of a configuration,
-- as the number of bytes returned.
pub ep0_control-IsAsked :
    (low kind i0 i1 l0 l1 : ℕ)
    → IsByte low
    → IsByte kind
    → 50 ≤ u16_from_le_bytes l0 l1
    → (ep0_control (0x80 ∷ 0x06 ∷ low ∷ kind ∷ i0 ∷ i1 ∷ l0 ∷ l1 ∷ [])).0 ≡ 0
    → IsAsked kind (ep0_control (0x80 ∷ 0x06 ∷ low ∷ kind ∷ i0 ∷ i1 ∷ l0 ∷ l1 ∷ [])).1
unfolding ep0_control
ep0_control-IsAsked low kind i0 i1 l0 l1 h k room e =
    let high : (low + 256 * kind) / 2 ^ 8 ≡ kind = omega arith in
    let rest : bit_and (low + 256 * kind) 0xFF ≡ low = omega (arith, and-byte (low + 256 * kind)) in
    rw (high, rest)
      (control_answer-IsAsked kind (u16_from_le_bytes l0 l1) (control_payload 0x80 0x06 kind low)
        (control_payload-IsAsked kind low) (control_payload-FitsFifty 0x80 0x06 kind low) room
        (rw (high, rest) at e))
