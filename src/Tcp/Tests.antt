-- ===== src/Tcp/Tests.antt =====
-- Runs of channel/tcp.rs.
use esp32_dap_proxy.Prelude.{ℕ, ◌≡◌, refl, List, [], ◌∷◌, ◌++◌, arith, take}
use esp32_dap_proxy.Frame.{Deframer, new}
use esp32_dap_proxy.Frame.Wire.{encode, head_bytes}
use esp32_dap_proxy.Frame.Valid.{new-IsValid}
use esp32_dap_proxy.Frame.Payload.{Idle}
use esp32_dap_proxy.Tcp.{ReadEvent, chunk, failed, received, recv_frame}
use esp32_dap_proxy.Tcp.Chunks.{joined, reads}
use esp32_dap_proxy.Tcp.Arrival.{recv_frame-encode}
use esp32_dap_proxy.Tcp.Faults.{Sound, recv_frame-Sound, recv_frame_tail}

new-Idle : Idle 4 (new 4)
new-Idle = record { full = refl; idle = refl }

-- A stray byte and a frame of two bytes, in three reads.
abbrev cut : List (List ℕ)
cut = (0x00 ∷ 0xDA ∷ []) ∷ (0x02 ∷ 0x00 ∷ 0x05 ∷ []) ∷ (0x06 ∷ []) ∷ []

cut-encode : joined cut ≡ (0x00 ∷ []) ++ encode (0x05 ∷ 0x06 ∷ [])
unfolding encode head_bytes
cut-encode = refl

recv_frame-encode_example :
    (d' : Deframer) × (recv_frame 4 4 (new 4) (reads cut ++ (failed ∷ []))
      ≡ received (take 4 (0x05 ∷ 0x06 ∷ [])) d' (failed ∷ []))
    × Idle 4 d'
    × (d'.rejects ≡ 0)
recv_frame-encode_example =
    recv_frame-encode 4 4 (new 4) (0x00 ∷ []) (0x05 ∷ 0x06 ∷ []) cut (failed ∷ []) new-Idle
      (ground arith) (omega arith) (omega arith) (omega arith) (omega arith) (ground arith)
      cut-encode

abbrev some_reads : List ReadEvent
some_reads = chunk (0xDA ∷ 0x01 ∷ []) ∷ chunk (0x00 ∷ 0x07 ∷ 0x08 ∷ []) ∷ []

recv_frame-Sound_example : Sound 4 (recv_frame 4 4 (new 4) some_reads)
recv_frame-Sound_example =
    recv_frame-Sound 4 4 (new 4) some_reads (omega arith) (omega arith) (new-IsValid 4)
      (ground arith)

-- The second request of the read is lost.
recv_frame_tail_example :
    (d' : Deframer) × (recv_frame 4 4
        (new 4)
        (chunk (encode (0x03 ∷ []) ++ encode (0x00 ∷ 0x04 ∷ [])) ∷ [])
      ≡ received (take 4 (0x03 ∷ [])) d' [])
    × (recv_frame 4 4 (new 4) (chunk (encode (0x03 ∷ [])) ∷ [])
        ≡ received (take 4 (0x03 ∷ [])) d' [])
recv_frame_tail_example =
    recv_frame_tail 4 4 (new 4) (0x03 ∷ []) (encode (0x00 ∷ 0x04 ∷ [])) [] new-Idle (omega arith)
      (omega arith) (omega arith) (omega arith)
