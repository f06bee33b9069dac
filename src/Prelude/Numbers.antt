-- ===== src/Prelude/Numbers.antt =====
-- Numbers as Rust's formatting writes them: `{}` and `{:02X}`.
use Prim.Native.Nat.{ℕ, zero, suc, ◌+◌, ◌*◌, ◌/◌, ◌%◌, ◌^◌, ◌<◌}
use esp32_dap_proxy.Prelude.Tests.{ltb, if◌then◌else◌, Bool-cases}
use mathlib.Core.Path.{◌≡◌, refl}
use mathlib.Core.Logic.{inl, inr}
use mathlib.Core.List.{List, [], ◌∷◌, ◌++◌}
use native.Mathlib.Omega.{arith}

-- The decimal digits, at most one more than the fuel says.
unfoldable pub digits : ℕ → ℕ → List ℕ
digits zero n = (b'0' + n % 10) ∷ []
digits (suc fuel) n =
    let more = digits fuel (n / 10) in
    if ltb n 10 then (b'0' + n) ∷ [] else more ++ ((b'0' + n % 10) ∷ [])

-- No u64 has more than 20.
abbrev pub decimal : ℕ → List ℕ
decimal n = digits 19 n

abbrev pub hex_digit : ℕ → ℕ
hex_digit d = if ltb d 10 then b'0' + d else b'A' + d % 10

-- Of a byte.
abbrev pub hex_byte : ℕ → List ℕ
hex_byte b = hex_digit (b / 16) ∷ hex_digit (b % 16) ∷ []

-- The number that decimal digits stand for, behind those of another.
abbrev pub read_decimal : ℕ → List ℕ → ℕ
read_decimal acc [] = acc
read_decimal acc (c ∷ cs) = read_decimal (10 * acc + (c % b'0')) cs

read_decimal-append :
    (acc c : ℕ) (cs : List ℕ)
    → read_decimal acc (cs ++ (c ∷ [])) ≡ 10 * read_decimal acc cs + c % b'0'
read_decimal-append acc c [] = refl
read_decimal-append acc c (d ∷ cs) = read_decimal-append (10 * acc + d % b'0') c cs

quotient-lt : (n p : ℕ) → n < 10 * p → n / 10 < p
quotient-lt n p h = omega arith

digits-read : (fuel n : ℕ) → n < 10 ^ suc fuel → read_decimal 0 (digits fuel n) ≡ n
unfolding digits
digits-read zero n h = omega arith
digits-read (suc fuel) n h = elim (Bool-cases (ltb n 10)) [
  | inl small ↦ rw small (ground arith)
  | inr large ↦
      let less : n / 10 < 10 ^ suc fuel = quotient-lt n (10 ^ suc fuel) (omega (arith, h)) in
      let kept = digits-read fuel (n / 10) less in
      rw (large, read_decimal-append 0 (b'0' + n % 10) (digits fuel (n / 10)), kept) (omega arith)
]

-- A number of at most 64 bits can be read back from its digits.
pub decimal-read : (n : ℕ) → n < 2 ^ 64 → read_decimal 0 (decimal n) ≡ n
decimal-read n h = digits-read 19 n (omega arith)
