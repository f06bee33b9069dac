-- ===== src/Frame/Tests.antt =====
-- Runs of channel/frame.rs.
use esp32_dap_proxy.Prelude.{◌≡◌, refl, List, [], ◌∷◌, arith, map, take}
use esp32_dap_proxy.Frame.{new, feed_all}
use esp32_dap_proxy.Frame.Payload.{Idle}
use esp32_dap_proxy.Frame.RoundTrip.{Segment, wire, feed_all-wire}

-- Two stray bytes and a frame of two bytes, and then one of five, which a buffer of four cuts.
abbrev segments : List Segment
segments =
    record { noise = 0x00 ∷ 0xFF ∷ []; body = 0x00 ∷ 0xDA ∷ [] }
    ∷ record { noise = []; body = 1 ∷ 2 ∷ 3 ∷ 4 ∷ 5 ∷ [] }
    ∷ []

feed_all-wire_example :
    Idle 4 (feed_all 4 (new 4) (wire segments)).0
    × ((feed_all 4 (new 4) (wire segments)).1 ≡ map (λ s. take 4 s.body) segments)
feed_all-wire_example =
    feed_all-wire 4 (new 4) segments (record { full = refl; idle = refl })
      (
        record { quiet = ground arith; not_empty = omega arith; fits = omega arith },
        (record { quiet = tt; not_empty = omega arith; fits = omega arith }, tt),
      )
