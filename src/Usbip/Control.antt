-- ===== src/Usbip/Control.antt =====
-- `ep0_control` of usbip.rs.
pub mod Answer
pub mod Descriptor
use esp32_dap_proxy.Prelude.{
  ℕ, ◌/◌, ◌^◌, min, Bool, true, false, ◌||◌, Option, none, some, List, [], ◌∷◌, ◌==◌, if◌then◌else◌,
  length, take, get_or, bit_and,
}
use esp32_dap_proxy.Prelude.Bytes.{u16_from_le_bytes}
use esp32_dap_proxy.Descriptors.{device_descriptor, config_descriptor, string_descriptor}

abbrev pub epipe : ℕ
epipe = 32

-- The match on the type of the request, the request, and the two bytes of `w_value`.
unfoldable pub control_payload : ℕ → ℕ → ℕ → ℕ → Option (List ℕ)
control_payload kind request high low =
    if kind == 0x80
    then (if request == 0x00
        then some (0x00 ∷ 0x00 ∷ [])
        else if request == 0x06
        then (if high == 0x01
            then some device_descriptor
            else if high == 0x02
            then some config_descriptor
            else if high == 0x03
            then string_descriptor low
            else none)
        else if request == 0x08
        then some (0x01 ∷ [])
        else if request == 0x0A
        then some (0x00 ∷ [])
        else none)
    else if kind == 0x81
    then (if request == 0x00 then some (0x00 ∷ 0x00 ∷ []) else none)
    else if kind == 0x82
    then (if request == 0x00 then some (0x00 ∷ 0x00 ∷ []) else none)
    else none

abbrev pub control_answer : ℕ → Option (List ℕ) → ℕ × List ℕ
control_answer w_length (some p) = (0, take (min (length p) w_length) p)
control_answer w_length none = (epipe, [])

-- `setup` has 8 bytes, so that no index is out of range. `_out_data` is not read.
unfoldable pub ep0_control : List ℕ → ℕ × List ℕ
unfolding control_payload
ep0_control setup =
    let kind = get_or setup 0 0 in
    let request = get_or setup 1 0 in
    let w_value = u16_from_le_bytes (get_or setup 2 0) (get_or setup 3 0) in
    let w_length = u16_from_le_bytes (get_or setup 6 0) (get_or setup 7 0) in
    if bit_and kind 0x80 == 0
    then (if request == 0x01
        then (0, [])
        else if request == 0x03
        then (0, [])
        else if request == 0x09
        then (0, [])
        else if request == 0x0B
        then (0, [])
        else (epipe, []))
    else control_answer w_length
        (control_payload kind request (w_value / 2 ^ 8) (bit_and w_value 0xFF))
