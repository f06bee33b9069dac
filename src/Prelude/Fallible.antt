-- ===== src/Prelude/Fallible.antt =====
-- Rust's `Result`, and the `Option` monad in which `none` is a panic.
use mathlib.Core.Option.{Option, none, some}

-- `Result<A, E>`, with its arguments in the order of Rust.
pub data Result {ℓ κ} (A : Type ℓ) (E : Type κ) : Type (ℓ ⊔ κ) where
  ok : A → Result A E
  err : E → Result A E

-- `none` is a panic (an index out of range), or fuel that ran out.
infixl 5 ◌>>=◌ ◌>>◌
abbrev pub ◌>>=◌ {ℓ κ} : {A : Type ℓ} {B : Type κ} → Option A → (A → Option B) → Option B
none >>= f = none
some a >>= f = f a

abbrev pub ◌>>◌ {ℓ κ} : {A : Type ℓ} {B : Type κ} → Option A → Option B → Option B
m >> k = m >>= λ _. k
