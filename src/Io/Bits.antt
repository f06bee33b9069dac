-- ===== src/Io/Bits.antt =====
-- Numbers as bits, lowest first: what the words of probe/io/mod.rs mean.
use esp32_dap_proxy.Prelude.{
  ℕ, zero, suc, ◌+◌, ◌*◌, ◌/◌, ◌%◌, ◌^◌, ◌<◌, ◌≡◌, refl, ap, Bool, true, false, List, [], ◌∷◌,
  arith, ◌==◌, length, not,
}
use native.Mathlib.Nat.{pow-suc}

abbrev pub bit_value : Bool → ℕ
bit_value true = 1
bit_value false = 0

abbrev pub is_odd : ℕ → Bool
is_odd n = not (n % 2 == 0)

unfoldable pub of_bits : List Bool → ℕ
of_bits [] = 0
of_bits (b ∷ bs) = bit_value b + 2 * of_bits bs

unfoldable pub to_bits : ℕ → ℕ → List Bool
to_bits zero v = []
to_bits (suc n) v = is_odd v ∷ to_bits n (v / 2)

-- `u32::count_ones` of a number that fits the bits given.
unfoldable pub count_true : List Bool → ℕ
count_true [] = 0
count_true (b ∷ bs) = bit_value b + count_true bs

-- `v.count_ones()` of a u32 or a u8.
unfoldable pub count_ones : ℕ → ℕ
unfolding count_true to_bits
count_ones v = count_true (to_bits 32 v)

pub length-to_bits : (n v : ℕ) → length (to_bits n v) ≡ n
unfolding to_bits
length-to_bits zero v = refl
length-to_bits (suc n) v = ap suc (length-to_bits n (v / 2))

pub of_bits-lt : (bs : List Bool) → of_bits bs < 2 ^ length bs
unfolding of_bits
of_bits-lt [] = omega arith
of_bits-lt (b ∷ bs) = ground (arith, of_bits-lt bs, pow-suc 2 (length bs))

pub of_bits-to_bits : (n v : ℕ) → v < 2 ^ n → of_bits (to_bits n v) ≡ v
unfolding of_bits to_bits
of_bits-to_bits zero v h = omega arith
of_bits-to_bits (suc n) v h = ground (arith, of_bits-to_bits n (v / 2) (omega (arith, pow-suc 2 n)))

is_odd-add : (b : Bool) (n : ℕ) → is_odd (bit_value b + 2 * n) ≡ b
is_odd-add true n = ground arith
is_odd-add false n = ground arith

pub to_bits-of_bits : (bs : List Bool) → to_bits (length bs) (of_bits bs) ≡ bs
unfolding of_bits to_bits
to_bits-of_bits [] = refl
to_bits-of_bits (b ∷ bs) =
    let low : is_odd (bit_value b + 2 * of_bits bs) ≡ b = is_odd-add b (of_bits bs) in
    let high : (bit_value b + 2 * of_bits bs) / 2 ≡ of_bits bs = ground arith in
    rw (low, high, to_bits-of_bits bs)
