-- ===== src/Prelude/Bytes.antt =====
-- Bytes, and the little-endian words that they make up.
use Prim.Native.Nat.{ℕ, ◌+◌, ◌*◌, ◌/◌, ◌%◌, ◌^◌, ◌<◌}
use mathlib.Core.List.{List, [], ◌∷◌, ◌++◌}

abbrev pub IsByte : ℕ → Type 0
IsByte b = b < 256

abbrev pub IsU16 : ℕ → Type 0
IsU16 n = n < 2 ^ 16

abbrev pub IsU32 : ℕ → Type 0
IsU32 n = n < 2 ^ 32

-- `usize` on the target.
abbrev pub usize_mod : ℕ
usize_mod = 2 ^ 32

-- Every element of a list satisfies the predicate.
abbrev pub All {ℓ κ} : {A : Type ℓ} → (A → Type κ) → List A → Type κ
All P [] = Unit
All P (x ∷ xs) = P x × All P xs

pub All-append {ℓ κ} :
    {A : Type ℓ} (P : A → Type κ) (xs ys : List A) → All P xs → All P ys → All P (xs ++ ys)
All-append P [] ys h k = k
All-append P (x ∷ xs) ys h k = (h.0, All-append P xs ys h.1 k)

-- `u16::from_le_bytes` and `u32::from_le_bytes`.
abbrev pub u16_from_le_bytes : ℕ → ℕ → ℕ
u16_from_le_bytes b0 b1 = b0 + 256 * b1

abbrev pub u32_from_le_bytes : ℕ → ℕ → ℕ → ℕ → ℕ
u32_from_le_bytes b0 b1 b2 b3 = b0 + 256 * b1 + 65536 * b2 + 16777216 * b3

-- `v.to_le_bytes()` of a u16 and of a u32.
abbrev pub u16_to_le_bytes : ℕ → List ℕ
u16_to_le_bytes v = (v % 256) ∷ (v / 256 % 256) ∷ []

abbrev pub u32_to_le_bytes : ℕ → List ℕ
u32_to_le_bytes v = (v % 256) ∷ (v / 256 % 256) ∷ (v / 65536 % 256) ∷ (v / 16777216 % 256) ∷ []

-- The big-endian forms.
abbrev pub u16_from_be_bytes : ℕ → ℕ → ℕ
u16_from_be_bytes b1 b0 = b0 + 256 * b1

abbrev pub u32_from_be_bytes : ℕ → ℕ → ℕ → ℕ → ℕ
u32_from_be_bytes b3 b2 b1 b0 = b0 + 256 * b1 + 65536 * b2 + 16777216 * b3

abbrev pub u16_to_be_bytes : ℕ → List ℕ
u16_to_be_bytes v = (v / 256 % 256) ∷ (v % 256) ∷ []

abbrev pub u32_to_be_bytes : ℕ → List ℕ
u32_to_be_bytes v = (v / 16777216 % 256) ∷ (v / 65536 % 256) ∷ (v / 256 % 256) ∷ (v % 256) ∷ []
