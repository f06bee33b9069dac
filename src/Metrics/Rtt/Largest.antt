-- ===== src/Metrics/Rtt/Largest.antt =====
-- What the atomics of metrics.rs hold while calls of `note_rtt` run.
use Prim.Native.Nat.{max}
use esp32_dap_proxy.Prelude.{ℕ, ◌≤◌, ◌≡◌, refl, ap, subst, ◌∙◌, Bool, List, [], ◌∷◌, arith}
use esp32_dap_proxy.Prelude.Bytes.{All}
use esp32_dap_proxy.Metrics.Rtt.Invariant.{
  PcInv, CallInv, RttInv, Stepped, samples, interleave-Stepped,
}
use esp32_dap_proxy.Metrics.Rtt.{Rtt, returned, Call, note_rtt, sample_of, interleave}

abbrev pub largest_of : ℕ → List ℕ → ℕ
largest_of base [] = base
largest_of base (v ∷ vs) = max v (largest_of base vs)

-- A call that has returned has put its sample below the maximum.
abbrev pub IsReturned : Call → Type 0
IsReturned c = c.pc ≡ returned

returned-largest :
    (top avg base : ℕ) (m : Rtt) (cs : List Call)
    → base ≤ m.largest
    → All (CallInv top avg m) cs
    → All IsReturned cs
    → largest_of base (samples cs) ≤ m.largest
returned-largest top avg base m [] h k l = h
returned-largest top avg base m (c ∷ cs) h k l =
    let below : c.sample ≤ m.largest = subst (PcInv avg m c.sample) l.0 k.0.at_pc in
    omega (arith, returned-largest top avg base m cs h k.1 l.1)

abbrev pub calls_of : List ℕ → List Call
calls_of [] = []
calls_of (micros ∷ rest) = note_rtt micros ∷ calls_of rest

abbrev pub samples_of : List ℕ → List ℕ
samples_of [] = []
samples_of (micros ∷ rest) = sample_of micros ∷ samples_of rest

samples-calls_of : (times : List ℕ) → samples (calls_of times) ≡ samples_of times
samples-calls_of [] = refl
samples-calls_of (micros ∷ rest) = ap (λ vs. sample_of micros ∷ vs) (samples-calls_of rest)

calls_of-CallInv :
    (top avg : ℕ) (m : Rtt) (times : List ℕ) (a b : ℕ)
    → largest_of a (samples_of times) ≤ top
    → largest_of b (samples_of times) ≤ avg
    → All (CallInv top avg m) (calls_of times)
calls_of-CallInv top avg m [] a b h k = tt
calls_of-CallInv top avg m (micros ∷ rest) a b h k = (
  record { sample_top = omega arith; sample_avg = omega arith; at_pc = tt },
  calls_of-CallInv top avg m rest a b (omega arith) (omega arith),
)

largest_of-base : (base : ℕ) (vs : List ℕ) → base ≤ largest_of base vs
largest_of-base base [] = omega arith
largest_of-base base (v ∷ vs) = omega (arith, largest_of-base base vs)

interleave-all_Stepped :
    (schedule : List (ℕ × Bool)) (m : Rtt) (times : List ℕ)
    → Stepped
        (largest_of m.largest (samples_of times))
        (largest_of m.ewma (samples_of times))
        m
        (calls_of times)
        (interleave schedule m (calls_of times))
interleave-all_Stepped schedule m times =
    let top = largest_of m.largest (samples_of times) in
    let avg = largest_of m.ewma (samples_of times) in
    let start : RttInv top avg m = record {
      largest_top = largest_of-base m.largest (samples_of times);
      ewma_avg = largest_of-base m.ewma (samples_of times);
    } in
    interleave-Stepped top avg schedule m (calls_of times) start
      (calls_of-CallInv top avg m times m.largest m.ewma (omega arith) (omega arith))

-- Calls that run at the same time, interleaved in any way and with any failures of the weak
-- compare-and-exchange: at any moment the maximum is no less than before them, and it does not
-- exceed the largest of the times noted and the maximum before; the average does not exceed the
-- largest of the times and the average before. Each time is cut to 32 bits.
pub interleave-bounded :
    (schedule : List (ℕ × Bool)) (m : Rtt) (times : List ℕ)
    → let m' = (interleave schedule m (calls_of times)).0 in
      (m.largest ≤ m'.largest)
      × (m'.largest ≤ largest_of m.largest (samples_of times))
      × (m'.ewma ≤ largest_of m.ewma (samples_of times))
interleave-bounded schedule m times =
    let (mono, h, _, _) = interleave-all_Stepped schedule m times in
    (mono, h.largest_top, h.ewma_avg)

-- No maximum is lost: once calls that run at the same time, interleaved in any way and with any
-- failures of the weak compare-and-exchange, have all returned, the maximum is the largest of the
-- times noted and the maximum before them. Each time is cut to 32 bits.
pub interleave-largest :
    (schedule : List (ℕ × Bool)) (m : Rtt) (times : List ℕ)
    → All IsReturned (interleave schedule m (calls_of times)).1
    → (interleave schedule m (calls_of times)).0.largest ≡ largest_of m.largest (samples_of times)
interleave-largest schedule m times done =
    let top = largest_of m.largest (samples_of times) in
    let avg = largest_of m.ewma (samples_of times) in
    let (mono, h, k, same) = interleave-all_Stepped schedule m times in
    let (m', cs) = interleave schedule m (calls_of times) in
    let below = returned-largest top avg m.largest m' cs mono k done in
    let noted : largest_of m.largest (samples cs) ≡ top =
      ap (largest_of m.largest) (same ∙ samples-calls_of times) in
    omega (arith, h.largest_top)
