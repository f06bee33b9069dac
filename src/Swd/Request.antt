-- ===== src/Swd/Request.antt =====
-- The request header that `make_request` of transport/swd.rs builds, bit by bit.
use esp32_dap_proxy.Prelude.{
  ℕ, ◌/◌, ◌<◌, ◌≡◌, refl, ap, ◌∙◌, Bool, true, false, xor, List, [], ◌∷◌, ◌==◌, ==_iff,
}
use esp32_dap_proxy.Prelude.Bits.{all_below, of_all_below}
use esp32_dap_proxy.Io.Bits.{is_odd, of_bits, to_bits, to_bits-of_bits}
use esp32_dap_proxy.Swd.{make_request}

-- Start, APnDP, RnW, A2, A3, even parity of those four, stop, park.
abbrev pub header : Bool → Bool → Bool → Bool → List Bool
header apndp rnw a2 a3 =
    true ∷ apndp ∷ rnw ∷ a2 ∷ a3 ∷ xor (xor (xor apndp rnw) a2) a3 ∷ false ∷ true ∷ []

abbrev agrees : Bool → Bool → ℕ → Bool
agrees apndp rnw addr =
    make_request apndp rnw addr
    == of_bits (header apndp rnw (is_odd (addr / 4)) (is_odd (addr / 8)))

agrees_table : (apndp rnw : Bool) → all_below 256 (agrees apndp rnw) ≡ true
unfolding all_below make_request of_bits xor
agrees_table true true = refl
agrees_table true false = refl
agrees_table false true = refl
agrees_table false false = refl

-- For every register address of a byte, the eight bits that are sent, first to last, are the header
-- of the SWD protocol for that access, with bits 2 and 3 of the address.
pub make_request-header :
    (apndp rnw : Bool) (addr : ℕ)
    → addr < 256
    → to_bits 8 (make_request apndp rnw addr)
      ≡ header apndp rnw (is_odd (addr / 4)) (is_odd (addr / 8))
make_request-header apndp rnw addr h =
    let e = (==_iff _ _).0 (of_all_below 256 (agrees apndp rnw) (agrees_table apndp rnw) addr h) in
    ap (to_bits 8) e ∙ to_bits-of_bits (header apndp rnw (is_odd (addr / 4)) (is_odd (addr / 8)))
