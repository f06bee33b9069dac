-- ===== src/Prelude/Bits.antt =====
-- `&` and `|` at variables: the law of the lowest digit, low masks, and disjoint fields.
use Prim.Native.Nat.{
  ℕ, zero, suc, ◌+◌, ◌*◌, ◌/◌, ◌%◌, ◌^◌, ◌≤◌, ◌<◌, min, max, bit_and, bit_or, digits, bitwise,
  bit_and-bitwise, bit_or-bitwise,
}
use mathlib.Core.Path.{◌≡◌, refl, ap}
use mathlib.Core.Bool.{Bool, true, ◌&&◌}
use native.Mathlib.Nat.{pow-suc}
use native.Mathlib.Omega.{arith}

-- A test that holds for every number below the bound.
unfoldable pub all_below : ℕ → (ℕ → Bool) → Bool
all_below zero p = true
all_below (suc n) p = p n && all_below n p

pub of_all_below :
    (bound : ℕ) (p : ℕ → Bool) → all_below bound p ≡ true → (x : ℕ) → x < bound → p x ≡ true
unfolding all_below
of_all_below zero p h x lt = absurd (omega arith)
of_all_below (suc n) p h x lt = ground (arith, of_all_below n p (ground arith) x)

-- The native operations stand for a recursion on digits with fuel: any fuel from the first operand
-- on gives the same number.
module _ (base : ℕ → ℕ) (digit : ℕ → ℕ → ℕ) where
  abbrev run : ℕ → ℕ → ℕ → ℕ
  run = digits base digit

  enough_fuel : (m n a b : ℕ) → a ≤ m → a ≤ n → run m a b ≡ run n a b
  enough_fuel (suc m) (suc n) (suc a) b h k =
      ap (λ (t : ℕ). t * 2 + digit (suc a % 2) (b % 2))
        (enough_fuel m n (suc a / 2) (b / 2) (omega arith) (omega arith))
  enough_fuel zero zero zero b h k = refl
  enough_fuel zero (suc n) zero b h k = refl
  enough_fuel (suc m) zero zero b h k = refl
  enough_fuel (suc m) (suc n) zero b h k = refl
  enough_fuel zero n (suc a) b h k = absurd (omega arith)
  enough_fuel (suc m) zero (suc a) b h k = absurd (omega arith)

  lowest_digit :
      (a b : ℕ)
      → bitwise base digit (suc a) b
        ≡ bitwise base digit (suc a / 2) (b / 2) * 2 + digit (suc a % 2) (b % 2)
  lowest_digit a b =
      ap (λ (t : ℕ). t * 2 + digit (suc a % 2) (b % 2))
        (enough_fuel a (suc a / 2) (suc a / 2) (b / 2) (omega arith) (omega arith))

pub and_digit : (a b : ℕ) → bit_and a b ≡ bit_and (a / 2) (b / 2) * 2 + min (a % 2) (b % 2)
and_digit zero b = omega (arith, bit_and-bitwise 0 b, bit_and-bitwise 0 (b / 2))
and_digit (suc a) b =
    rw (bit_and-bitwise (suc a) b, bit_and-bitwise (suc a / 2) (b / 2))
      (lowest_digit (λ _. 0) min a b)

pub or_digit : (a b : ℕ) → bit_or a b ≡ bit_or (a / 2) (b / 2) * 2 + max (a % 2) (b % 2)
or_digit zero b = omega (arith, bit_or-bitwise 0 b, bit_or-bitwise 0 (b / 2))
or_digit (suc a) b =
    rw (bit_or-bitwise (suc a) b, bit_or-bitwise (suc a / 2) (b / 2))
      (lowest_digit (λ t. t) max a b)

-- The low bits of a number, and a field above them.
two_pow_suc : (k q : ℕ) → q * 2 ^ suc k ≡ q * 2 ^ k * 2
two_pow_suc k q = omega (arith, ap (λ (t : ℕ). q * t) (pow-suc 2 k))

and-zero : (n a : ℕ) → a ≤ n → bit_and a 0 ≡ 0
and-zero n zero h = refl
and-zero zero (suc a) h = absurd (omega arith)
and-zero (suc n) (suc a) h =
    omega (arith, and_digit (suc a) 0, and-zero n (suc a / 2) (omega arith))

-- `a & (2^k - 1)` is the remainder by `2^k`: one bit, two, three and eight.
pub and-one : (a : ℕ) → bit_and a 1 ≡ a % 2
and-one a = omega (arith, and_digit a 1, and-zero (a / 2) (a / 2) (omega arith))

pub and-three : (a : ℕ) → bit_and a 3 ≡ a % 4
and-three a = omega (arith, and_digit a 3, and-one (a / 2))

and-fifteen : (a : ℕ) → bit_and a 0xf ≡ a % 16
and-fifteen a = omega (arith, and_digit a 0xf, and_digit (a / 2) 7, and-three (a / 2 / 2))

pub and-byte : (a : ℕ) → bit_and a 0xff ≡ a % 256
and-byte a = omega (
  arith,
  and_digit a 0xff,
  and_digit (a / 2) 0x7f,
  and_digit (a / 2 / 2) 0x3f,
  and_digit (a / 2 / 2 / 2) 0x1f,
  and-fifteen (a / 2 / 2 / 2 / 2),
)

-- `low | (field << k)` is a sum where `low` fits `k` bits.
zero-or : (b : ℕ) → bit_or 0 b ≡ b
zero-or b = bit_or-bitwise 0 b

pub or-field : (k low field : ℕ) → low < 2 ^ k → bit_or low (field * 2 ^ k) ≡ low + field * 2 ^ k
or-field zero low field h =
    let e : low ≡ 0 = omega arith in
    let f : field * 2 ^ 0 ≡ field = omega arith in rw (e, f) (omega (arith, zero-or field))
or-field (suc k) low field h = rw two_pow_suc (
    ground (
      arith,
      or_digit low (field * 2 ^ k * 2),
      or-field k (low / 2) field (omega (arith, two_pow_suc k 1)),
    ))

-- Bounds.
and-le_fuel : (n a b : ℕ) → a ≤ n → bit_and a b ≤ b
and-le_fuel n zero b h = omega (arith, bit_and-bitwise 0 b)
and-le_fuel zero (suc a) b h = absurd (omega arith)
and-le_fuel (suc n) (suc a) b h =
    omega (arith, and_digit (suc a) b, and-le_fuel n (suc a / 2) (b / 2) (omega arith))

pub and-le : (a b : ℕ) → bit_and a b ≤ b
and-le a b = and-le_fuel a a b (omega arith)

pub or-lt : (k a b : ℕ) → a < 2 ^ k → b < 2 ^ k → bit_or a b < 2 ^ k
or-lt zero a b h l = let e : a ≡ 0 = omega arith in rw e (omega (arith, zero-or b))
or-lt (suc k) a b h l = omega (
  arith,
  or_digit a b,
  two_pow_suc k 1,
  or-lt k (a / 2) (b / 2) (omega (arith, two_pow_suc k 1)) (omega (arith, two_pow_suc k 1)),
)
