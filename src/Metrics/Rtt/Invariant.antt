-- ===== src/Metrics/Rtt/Invariant.antt =====
-- What every step of a call of `note_rtt` of metrics.rs keeps.
use esp32_dap_proxy.Prelude.{
  ℕ, zero, suc, ◌≤◌, ◌≡◌, refl, ap, ◌∙◌, min, Bool, not, ◌&&◌, List, [], ◌∷◌, ltb, ◌==◌, arith,
  Bool-cases, inl, inr,
}
use esp32_dap_proxy.Prelude.Bytes.{All}
use esp32_dap_proxy.Metrics.Rtt.{
  Rtt, Pc, entered, averaging, averaged, comparing, swapping, returned, average, u32_max, advance,
  Call, step, interleave,
}

average-le : (old v bound : ℕ) → old ≤ bound → v ≤ bound → min (average old v) u32_max ≤ bound
average-le old v bound h k = ground arith

-- What a call relies on: `avg` bounds the average that it has loaded, and the maximum that it knows
-- has been one.
abbrev pub PcInv : ℕ → Rtt → ℕ → Pc → Type 0
PcInv avg m v entered = Unit
PcInv avg m v averaging = Unit
PcInv avg m v (averaged old) = old ≤ avg
PcInv avg m v comparing = Unit
PcInv avg m v (swapping cur) = cur ≤ m.largest
PcInv avg m v returned = v ≤ m.largest

pub record CallInv (top avg : ℕ) (m : Rtt) (c : Call) : Type 0 where
  pub sample_top : c.sample ≤ top
  pub sample_avg : c.sample ≤ avg
  pub at_pc : PcInv avg m c.sample c.pc

pub record RttInv (top avg : ℕ) (m : Rtt) : Type 0 where
  pub largest_top : m.largest ≤ top
  pub ewma_avg : m.ewma ≤ avg

PcInv-mono :
    (avg v : ℕ) (m m' : Rtt) (pc : Pc)
    → m.largest ≤ m'.largest
    → PcInv avg m v pc
    → PcInv avg m' v pc
PcInv-mono avg v m m' entered h k = tt
PcInv-mono avg v m m' averaging h k = tt
PcInv-mono avg v m m' (averaged old) h k = k
PcInv-mono avg v m m' comparing h k = tt
PcInv-mono avg v m m' (swapping cur) h k = omega arith
PcInv-mono avg v m m' returned h k = omega arith

CallInv-mono :
    (top avg : ℕ) (m m' : Rtt) (c : Call)
    → m.largest ≤ m'.largest
    → CallInv top avg m c
    → CallInv top avg m' c
CallInv-mono top avg m m' c h k = record {
  sample_top = k.sample_top;
  sample_avg = k.sample_avg;
  at_pc = PcInv-mono avg c.sample m m' c.pc h k.at_pc;
}

calls_mono :
    (top avg : ℕ) (m m' : Rtt) (cs : List Call)
    → m.largest ≤ m'.largest
    → All (CallInv top avg m) cs
    → All (CallInv top avg m') cs
calls_mono top avg m m' [] h k = tt
calls_mono top avg m m' (c ∷ cs) h k =
    (CallInv-mono top avg m m' c h k.0, calls_mono top avg m m' cs h k.1)

abbrev Advanced : ℕ → ℕ → ℕ → Rtt → Rtt × Pc → Type 0
Advanced top avg v m (m', pc) = (m.largest ≤ m'.largest) × RttInv top avg m' × PcInv avg m' v pc

advance-Advanced :
    (top avg v : ℕ) (spurious : Bool) (m : Rtt) (pc : Pc)
    → v ≤ top
    → v ≤ avg
    → RttInv top avg m
    → PcInv avg m v pc
    → Advanced top avg v m (advance spurious v m pc)
unfolding advance
advance-Advanced top avg v spurious m entered a b h k =
    (omega arith, record { largest_top = h.largest_top; ewma_avg = h.ewma_avg }, tt)
advance-Advanced top avg v spurious m averaging a b h k = (omega arith, h, h.ewma_avg)
advance-Advanced top avg v spurious m (averaged old) a b h k =
    (omega arith, record { largest_top = h.largest_top; ewma_avg = average-le old v avg k b }, tt)
advance-Advanced top avg v spurious m comparing a b h k = (omega arith, h, omega arith)
advance-Advanced top avg v spurious m (swapping cur) a b h k = elim (Bool-cases (ltb cur v)) [
  | inl larger ↦ elim (Bool-cases ((m.largest == cur) && not spurious)) [
    | inl same ↦
        rw (larger, same)
          (grind arith, record { largest_top = a; ewma_avg = h.ewma_avg }, omega arith)
    | inr other ↦ rw (larger, other) (omega arith, h, omega arith)
  ]
  | inr rest ↦ rw rest (omega arith, h, ground arith)
]
advance-Advanced top avg v spurious m returned a b h k = (omega arith, h, k)

abbrev pub samples : List Call → List ℕ
samples [] = []
samples (c ∷ cs) = c.sample ∷ samples cs

abbrev pub Stepped : ℕ → ℕ → Rtt → List Call → Rtt × List Call → Type 0
Stepped top avg m cs (m', cs') =
    (m.largest ≤ m'.largest)
    × RttInv top avg m'
    × All (CallInv top avg m') cs'
    × (samples cs' ≡ samples cs)

step-Stepped :
    (top avg i : ℕ) (spurious : Bool) (m : Rtt) (cs : List Call)
    → RttInv top avg m
    → All (CallInv top avg m) cs
    → Stepped top avg m cs (step i spurious m cs)
unfolding step
step-Stepped top avg i spurious m [] h k = (omega arith, h, tt, refl)
step-Stepped top avg zero spurious m (c ∷ cs) h k =
    let (mono, h', p) =
      advance-Advanced top avg c.sample spurious m c.pc k.0.sample_top k.0.sample_avg h k.0.at_pc in
    let m' = (advance spurious c.sample m c.pc).0 in
    let m_pc = (advance spurious c.sample m c.pc).1 in
    let c' : CallInv top avg m' (record c { pc = m_pc }) = record {
      sample_top = k.0.sample_top;
      sample_avg = k.0.sample_avg;
      at_pc = p;
    } in
    (mono, h', (c', calls_mono top avg m m' cs mono k.1), refl)
step-Stepped top avg (suc i) spurious m (c ∷ cs) h k =
    let (mono, h', rest, same) = step-Stepped top avg i spurious m cs h k.1 in
    let m' = (step i spurious m cs).0 in
    (mono, h', (CallInv-mono top avg m m' c mono k.0, rest), ap (λ vs. c.sample ∷ vs) same)

pub interleave-Stepped :
    (top avg : ℕ) (schedule : List (ℕ × Bool)) (m : Rtt) (cs : List Call)
    → RttInv top avg m
    → All (CallInv top avg m) cs
    → Stepped top avg m cs (interleave schedule m cs)
unfolding interleave
interleave-Stepped top avg [] m cs h k = (omega arith, h, k, refl)
interleave-Stepped top avg ((i, spurious) ∷ rest) m cs h k =
    let (mono, h', k', same) = step-Stepped top avg i spurious m cs h k in
    let (m', cs') = step i spurious m cs in
    let (mono', h'', k'', same') = interleave-Stepped top avg rest m' cs' h' k' in
    (omega arith, h'', k'', same' ∙ same)
