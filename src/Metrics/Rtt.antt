-- ===== src/Metrics/Rtt.antt =====
-- `note_rtt` of metrics.rs: calls that run at the same time on shared atomics. A step of a call is one
-- access to an atomic; which call makes the next step, and whether its `compare_exchange_weak` fails
-- without a reason, is an argument.
pub mod Invariant
pub mod Largest
pub mod Alone
mod Tests
use esp32_dap_proxy.Prelude.{
  ℕ, zero, suc, ◌+◌, ◌-◌, ◌*◌, ◌/◌, ◌^◌, min, Bool, true, false, not, ◌&&◌, List, [], ◌∷◌, ltb,
  ◌==◌, if◌then◌else◌,
}

-- LINK_RTT_US_LAST, LINK_RTT_US_EWMA and LINK_RTT_US_MAX
pub record Rtt : Type 0 where
  pub latest : ℕ
  pub ewma : ℕ
  pub largest : ℕ

abbrev pub u32_max : ℕ
u32_max = 2 ^ 32 - 1

-- `let v`
abbrev pub sample_of : ℕ → ℕ
sample_of micros = min micros u32_max

abbrev pub average : ℕ → ℕ → ℕ
average old v = if old == 0 then v else (old * 4 + v) / 5

-- Where a call is: in front of the store of the sample, of the load and of the store of the average,
-- of the load of the maximum, in the loop with the maximum that it knows, or returned.
pub data Pc : Type 0 where
  entered averaging : Pc
  averaged : (old : ℕ) → Pc
  comparing : Pc
  swapping : (cur : ℕ) → Pc
  returned : Pc

-- One step of a call with the sample `v`.
unfoldable pub advance : Bool → ℕ → Rtt → Pc → Rtt × Pc
advance spurious v m entered = (record m { latest = v }, averaging)
advance spurious v m averaging = (m, averaged m.ewma)
advance spurious v m (averaged old) = (record m { ewma = min (average old v) u32_max }, comparing)
advance spurious v m comparing = (m, swapping m.largest)
advance spurious v m (swapping cur) =
    if ltb cur v
    then (if (m.largest == cur) && not spurious
        then (record m { largest = v }, returned)
        else (m, swapping m.largest))
    else (m, returned)
advance spurious v m returned = (m, returned)

pub record Call : Type 0 where
  pub sample : ℕ
  pub pc : Pc

-- `note_rtt(micros)` at its start.
abbrev pub note_rtt : ℕ → Call
note_rtt micros = record { sample = sample_of micros; pc = entered }

-- The call of this index makes a step; an index that is not there does nothing.
unfoldable pub step : ℕ → Bool → Rtt → List Call → Rtt × List Call
step i spurious m [] = (m, [])
step zero spurious m (c ∷ cs) =
    let (m', pc) = advance spurious c.sample m c.pc in (m', record c { pc = pc } ∷ cs)
step (suc i) spurious m (c ∷ cs) = let (m', cs') = step i spurious m cs in (m', c ∷ cs')

-- The calls interleaved as the schedule says.
unfoldable pub interleave : List (ℕ × Bool) → Rtt → List Call → Rtt × List Call
interleave [] m cs = (m, cs)
interleave ((i, spurious) ∷ rest) m cs =
    let (m', cs') = step i spurious m cs in interleave rest m' cs'
