-- ===== src/Dap/Keeps.antt =====
-- Properties of the debug transport's state that cmd/dap.rs keeps, because it reaches the transport
-- through its interface only.
pub mod Access
pub mod Commands
pub mod Transfers
pub mod Handle
use esp32_dap_proxy.Prelude.{
  ℕ, zero, suc, ◌≡◌, Bool, true, false, Option, none, some, List, [], ◌∷◌, ok, ◌>>=◌, if◌then◌else◌,
  get_elem?, copy_front, copy_at,
}
use mathlib.Core.Option
use esp32_dap_proxy.Prelude.Bytes.{IsByte, All}
use esp32_dap_proxy.Transport.{Transport}

-- Every method of the transport keeps the property, and pins read under it fit a byte.
pub record Keeps (t : Transport) (P : t.State → Type 0) : Type 0 where
  pub after_init : (s : t.State) → P s → P (t.init s).1
  pub after_sequence :
      (count : ℕ) (bytes : List ℕ) (s : t.State) → P s → P (t.swj_sequence count bytes s).1
  pub after_pins : (out sel wait_ms : ℕ) (s : t.State) → P s → P (t.swj_pins out sel wait_ms s).1
  pub pins_fit :
      (out sel wait_ms : ℕ) (s : t.State) {v : ℕ}
      → P s
      → (t.swj_pins out sel wait_ms s).0 ≡ ok v
      → IsByte v
  pub after_read_dp : (a : ℕ) (s : t.State) → P s → P (t.read_dp a s).1
  pub after_write_dp : (a v : ℕ) (s : t.State) → P s → P (t.write_dp a v s).1
  pub after_read_ap : (select a : ℕ) (s : t.State) → P s → P (t.read_ap select a s).1
  pub after_write_ap : (select a v : ℕ) (s : t.State) → P s → P (t.write_ap select a v s).1

-- A predicate holds of the value, if there is one.
abbrev pub Holds {ℓ κ} : {A : Type ℓ} → (A → Type κ) → Option A → Type κ
Holds Q none = Unit
Holds Q (some a) = Q a

pub bind-Holds {ℓ ℓ' κ κ'} :
    {A : Type ℓ} {B : Type ℓ'} (Q : A → Type κ) (R : B → Type κ') (o : Option A) (f : A → Option B)
    → Holds Q o
    → ((a : A) → Q a → Holds R (f a))
    → Holds R (o >>= f)
bind-Holds Q R none f h k = tt
bind-Holds Q R (some a) f h k = k a h

pub if-Holds {ℓ κ} :
    {A : Type ℓ} (Q : A → Type κ) (b : Bool) (x y : A) → Q x → Q y → Q (if b then x else y)
if-Holds Q true x y h k = h
if-Holds Q false x y h k = k

-- Nothing is claimed of the value.
pub any-Holds {ℓ} : {A : Type ℓ} (o : Option A) → Holds (λ a. Unit {0}) o
any-Holds none = tt
any-Holds (some a) = tt

pub get_elem?-Holds {ℓ κ} :
    {A : Type ℓ} (Q : A → Type κ) (xs : List A) (i : ℕ) → All Q xs → Holds Q (get_elem? xs i)
get_elem?-Holds Q [] i h = tt
get_elem?-Holds Q (x ∷ xs) zero h = h.0
get_elem?-Holds Q (x ∷ xs) (suc i) h = get_elem?-Holds Q xs i h.1

cons-Holds {ℓ κ} :
    {A : Type ℓ} (Q : A → Type κ) (y : A) (o : Option (List A))
    → Q y
    → Holds (All Q) o
    → Holds (All Q) (Option.map (λ zs. y ∷ zs) o)
cons-Holds Q y none h k = tt
cons-Holds Q y (some zs) h k = (h, k)

copy_front-Holds {ℓ κ} :
    {A : Type ℓ} (Q : A → Type κ) (src dst : List A)
    → All Q src
    → All Q dst
    → Holds (All Q) (copy_front src dst)
copy_front-Holds Q [] dst h k = k
copy_front-Holds Q (x ∷ src) [] h k = tt
copy_front-Holds Q (x ∷ src) (y ∷ dst) h k =
    cons-Holds Q x (copy_front src dst) h.0 (copy_front-Holds Q src dst h.1 k.1)

-- What a buffer holds after a copy is from the buffer or from what is copied.
pub copy_at-Holds {ℓ κ} :
    {A : Type ℓ} (Q : A → Type κ) (pos : ℕ) (src dst : List A)
    → All Q src
    → All Q dst
    → Holds (All Q) (copy_at pos src dst)
copy_at-Holds Q zero src dst h k = copy_front-Holds Q src dst h k
copy_at-Holds Q (suc pos) src [] h k = tt
copy_at-Holds Q (suc pos) src (y ∷ dst) h k =
    cons-Holds Q y (copy_at pos src dst) k.0 (copy_at-Holds Q pos src dst h k.1)
