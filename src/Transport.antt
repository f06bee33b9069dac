-- ===== src/Transport.antt =====
-- esp-daplink-target/src/probe/transport/mod.rs: the debug transport that cmd/dap.rs drives, as an
-- interface. A method takes the transport's state and returns its result with the next state.
use esp32_dap_proxy.Prelude.{ℕ, ◌≡◌, List, Result, ok}
use esp32_dap_proxy.Prelude.Bytes.{IsU32}

pub data TransportError : Type 0 where
  wait fault : TransportError
  unknown : ℕ → TransportError
  parity io : TransportError

abbrev pub Outcome : Type 0 → Type 0 → Type 0
Outcome S A = Result A TransportError × S

-- trait `Transport`
pub record Transport : Type 1 where
  pub State : Type 0
  pub init : State → Outcome State (Unit {0})
  pub reset_state : State → State
  pub swj_sequence : ℕ → List ℕ → State → Outcome State (Unit {0})
  pub swj_pins : ℕ → ℕ → ℕ → State → Outcome State ℕ
  pub read_dp : ℕ → State → Outcome State ℕ
  pub write_dp : ℕ → ℕ → State → Outcome State (Unit {0})
  pub read_ap : ℕ → ℕ → State → Outcome State ℕ
  pub write_ap : ℕ → ℕ → ℕ → State → Outcome State (Unit {0})

-- What the result type u32 of the trait's reads says of their numbers.
pub record IsTyped (t : Transport) : Type 0 where
  pub read_dp_u32 : (a : ℕ) (s : t.State) {v : ℕ} → (t.read_dp a s).0 ≡ ok v → IsU32 v
  pub read_ap_u32 : (select a : ℕ) (s : t.State) {v : ℕ} → (t.read_ap select a s).0 ≡ ok v → IsU32 v
