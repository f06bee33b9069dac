-- ===== src/Metrics/Rtt/Tests.antt =====
-- Calls of `note_rtt` of metrics.rs that overtake each other.
use esp32_dap_proxy.Prelude.{ℕ, ◌≤◌, ◌≡◌, refl, Bool, true, false, List, [], ◌∷◌}
use esp32_dap_proxy.Prelude.Bytes.{All}
use esp32_dap_proxy.Metrics.Rtt.{Rtt, returned, swapping, advance, step, interleave}
use esp32_dap_proxy.Metrics.Rtt.Alone.{alone, alone-five}
use esp32_dap_proxy.Metrics.Rtt.Largest.{
  largest_of, samples_of, calls_of, IsReturned, interleave-bounded, interleave-largest,
}

abbrev before : Rtt
before = record { latest = 10; ewma = 20; largest = 30 }

abbrev times : List ℕ
times = 90 ∷ 40 ∷ []

-- Both calls load the maximum 30; the second puts its 40 first, so that the first fails and tries
-- again, once without a reason.
abbrev schedule : List (ℕ × Bool)
schedule =
    (0, false)
    ∷ (0, false)
    ∷ (1, false)
    ∷ (1, false)
    ∷ (0, false)
    ∷ (1, false)
    ∷ (0, false)
    ∷ (1, false)
    ∷ (1, false)
    ∷ (0, false)
    ∷ (0, true)
    ∷ (0, false)
    ∷ []

calls-IsReturned : All IsReturned (interleave schedule before (calls_of times)).1
unfolding interleave step advance
calls-IsReturned = (refl, (refl, tt))

interleave-bounded_example :
    let m' = (interleave schedule before (calls_of times)).0 in
    (before.largest ≤ m'.largest)
    × (m'.largest ≤ largest_of before.largest (samples_of times))
    × (m'.ewma ≤ largest_of before.ewma (samples_of times))
interleave-bounded_example = interleave-bounded schedule before times

interleave-largest_example : (interleave schedule before (calls_of times)).0.largest ≡ 90
interleave-largest_example = interleave-largest schedule before times calls-IsReturned

alone-five_example : (alone 5 90 before (swapping 25)).1 ≡ returned
alone-five_example = alone-five 90 before (swapping 25)
