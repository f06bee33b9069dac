-- ===== src/Dap/Keeps/Transfers.antt =====
-- The two commands of cmd/dap.rs that list accesses keep what the transport keeps, and leave bytes in
-- the buffer.
use esp32_dap_proxy.Prelude.{
  ℕ, ◌+◌, ◌^◌, List, [], ◌∷◌, ◌/◌, arith, ltb, leb, min, length, get_elem?,
}
use esp32_dap_proxy.Prelude.Bytes.{IsByte, All, u16_to_le_bytes, u16_from_le_bytes}
use esp32_dap_proxy.Frame.{sub_usize}
use esp32_dap_proxy.Transport.{Transport}
use esp32_dap_proxy.Dap.State.{Dap, st_proto}
use esp32_dap_proxy.Dap.Loop.{Loop, apndp_of, rnw_of, address_of, is_reserved}
use esp32_dap_proxy.Dap.Transfer.{transfer_round, dap_transfer}
use esp32_dap_proxy.Dap.Block.{block_round, malformed_block, run_block, dap_transfer_block}
use esp32_dap_proxy.Dap.Keeps.{Keeps, Holds, bind-Holds, if-Holds, any-Holds, copy_at-Holds}
use esp32_dap_proxy.Dap.Keeps.Access.{KeptLoop, KeptStep, KeptEnd, access-Keeps, rounds-Keeps}
use esp32_dap_proxy.Dap.Keeps.Commands.{IsKept, KeptReply}

u16_to_le_bytes-IsByte : (v : ℕ) → All IsByte (u16_to_le_bytes v)
u16_to_le_bytes-IsByte v = ground arith

module _ (t : Transport) (P : t.State → Type 0) (kept : Keeps t P) where
  transfer_round-Keeps :
      (req : List ℕ) (l : Loop t)
      → KeptLoop t P (2 ^ 8) l
      → Holds (KeptStep t P (2 ^ 8)) (transfer_round t req l)
  unfolding transfer_round
  transfer_round-Keeps req l h =
      let Q = KeptStep t P (2 ^ 8) in
      let moved : KeptLoop t P (2 ^ 8) (record l { pos = l.pos + 1 }) = record {
        transport = h.transport;
        bytes = h.bytes;
        counts = h.counts;
      } in
      if-Holds (Holds Q) (leb (length req) l.pos) _ _ (omega arith, h)
        (bind-Holds (λ b. Unit {0}) Q _ _ (any-Holds (get_elem? req l.pos))
          (λ rb u.
            if-Holds (Holds Q) (is_reserved rb) _ _ (omega arith, moved)
              (access-Keeps t P (2 ^ 8) kept (λ n. omega arith) (apndp_of rb) (rnw_of rb)
                (address_of rb) req _ moved)))

  pub dap_transfer-Keeps :
      (d : Dap t) (req resp : List ℕ)
      → P d.transport
      → All IsByte resp
      → KeptReply t P (dap_transfer t d req resp)
  unfolding dap_transfer
  dap_transfer-Keeps d req resp h k =
      let Q = IsKept t P in
      if-Holds (Holds Q) (ltb (length req) 3) _ _
        (bind-Holds (All IsByte) Q _ _
          (copy_at-Holds IsByte 0 (0 ∷ st_proto ∷ []) resp (omega arith, (omega arith, tt)) k)
          (λ resp' b. (h, b)))
        (bind-Holds (λ b. Unit {0}) Q _ _ (any-Holds (get_elem? req 2))
          (λ count u.
            bind-Holds (KeptEnd t P (2 ^ 8)) Q _ _
              (rounds-Keeps t P (2 ^ 8) kept (λ n. omega arith) (transfer_round t req) count
                (record { dap = d; resp = resp; pos = 3; rpos = 2; done = 0 })
                (transfer_round-Keeps req)
                (record { transport = h; bytes = k; counts = omega arith }))
              (λ (status, l) e.
                bind-Holds (All IsByte) Q _ _
                  (copy_at-Holds IsByte 0 (l.done ∷ []) l.resp (e.1.counts, tt) e.1.bytes)
                  (λ resp₁ b₁.
                    bind-Holds (All IsByte) Q _ _
                      (copy_at-Holds IsByte 1 (status ∷ []) resp₁ (e.0, tt) b₁)
                      (λ resp₂ b₂. (e.1.transport, b₂))))))

  malformed_block-Keeps :
      (d : Dap t) (resp : List ℕ)
      → P d.transport
      → All IsByte resp
      → KeptReply t P (malformed_block t d resp)
  unfolding malformed_block
  malformed_block-Keeps d resp h k =
      bind-Holds (All IsByte) (IsKept t P) _ _
        (copy_at-Holds IsByte 0 (0 ∷ 0 ∷ st_proto ∷ []) resp
          (omega arith, (omega arith, (omega arith, tt))) k)
        (λ resp' b. (h, b))

  run_block-Keeps :
      (d : Dap t) (count rb : ℕ) (req resp : List ℕ)
      → P d.transport
      → All IsByte resp
      → KeptReply t P (run_block t d count rb req resp)
  unfolding run_block block_round
  run_block-Keeps d count rb req resp h k =
      let Q = IsKept t P in
      bind-Holds (KeptEnd t P (2 ^ 16)) Q _ _
        (rounds-Keeps t P (2 ^ 16) kept (λ n. omega arith) (block_round t rb req) count
          (record { dap = d; resp = resp; pos = 5; rpos = 3; done = 0 })
          (λ l h'.
            access-Keeps t P (2 ^ 16) kept (λ n. omega arith) (apndp_of rb) (rnw_of rb)
              (address_of rb) req l h')
          (record { transport = h; bytes = k; counts = omega arith }))
        (λ (status, l) e.
          bind-Holds (All IsByte) Q _ _
            (copy_at-Holds IsByte 0 (u16_to_le_bytes l.done) l.resp (u16_to_le_bytes-IsByte l.done)
              e.1.bytes)
            (λ resp₁ b₁.
              bind-Holds (All IsByte) Q _ _
                (copy_at-Holds IsByte 2 (status ∷ []) resp₁ (e.0, tt) b₁)
                (λ resp₂ b₂. (e.1.transport, b₂))))

  pub dap_transfer_block-Keeps :
      (d : Dap t) (req resp : List ℕ)
      → P d.transport
      → All IsByte resp
      → KeptReply t P (dap_transfer_block t d req resp)
  unfolding dap_transfer_block
  dap_transfer_block-Keeps d req resp h k =
      let Q = IsKept t P in
      let refused = malformed_block-Keeps d resp h k in
      if-Holds (Holds Q) (ltb (length req) 5) _ _ refused (
        bind-Holds (λ b. Unit {0}) Q _ _ (any-Holds (get_elem? req 2))
          (λ c0 u0.
            bind-Holds (λ b. Unit {0}) Q _ _ (any-Holds (get_elem? req 3))
              (λ c1 u1.
                bind-Holds (λ b. Unit {0}) Q _ _ (any-Holds (get_elem? req 4))
                  (λ rb u2.
                    let count = min (u16_from_le_bytes c0 c1) (sub_usize (length resp) 3 / 4) in
                    if-Holds (Holds Q) (is_reserved rb) _ _ refused
                      (run_block-Keeps d count rb req resp h k)))))
