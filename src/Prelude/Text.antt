-- ===== src/Prelude/Text.antt =====
-- Texts of the program as the bytes that they are in UTF-8; all of them are ASCII.
use Prim.Native.Nat.{ℕ}
use esp32_dap_proxy.Prelude.Tests.{◌==◌, ==_iff, Bool-cases}
use mathlib.Core.Path.{◌≡◌, refl, ap₂}
use mathlib.Core.Logic.{inl, inr}
use native.Mathlib.Omega.{arith}
use mathlib.Core.Bool.{Bool, true, false, ◌&&◌}
use Prim.Native.Char.{code}
use Prim.Native.String.{String}
use mathlib.Core.List.{List, [], ◌∷◌}

abbrev pub codes : String → List ℕ
codes String.[] = []
codes (String.◌∷◌ c s) = code c ∷ codes s

-- `==` of two texts
abbrev pub text_eq : List ℕ → List ℕ → Bool
text_eq [] [] = true
text_eq (x ∷ xs) (y ∷ ys) = (x == y) && text_eq xs ys
text_eq _ _ = false

pub text_eq→≡ : (xs ys : List ℕ) → text_eq xs ys ≡ true → xs ≡ ys
text_eq→≡ [] [] h = refl
text_eq→≡ (x ∷ xs) (y ∷ ys) h = elim (Bool-cases (x == y)) [
  | inl same ↦ ap₂ (λ z zs. z ∷ zs) ((==_iff x y).0 same) (text_eq→≡ xs ys (rw same at h))
  | inr other ↦ let no_way : false ≡ true = rw other at h in ground arith
]
text_eq→≡ [] (y ∷ ys) h = ground arith
text_eq→≡ (x ∷ xs) [] h = ground arith
