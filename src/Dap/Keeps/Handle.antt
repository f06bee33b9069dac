-- ===== src/Dap/Keeps/Handle.antt =====
-- `handle` of cmd/dap.rs keeps what the transport keeps, and its buffer holds bytes.
use esp32_dap_proxy.Prelude.{ℕ, ◌≡◌, subst, some, List, [], ◌∷◌, ◌==◌, arith, length}
use esp32_dap_proxy.Prelude.Bytes.{IsByte, All}
use esp32_dap_proxy.Transport.{Transport}
use esp32_dap_proxy.Dap.State.{Dap}
use esp32_dap_proxy.Dap.Simple.{Reply, dap_swj_clock}
use esp32_dap_proxy.Dap.Handle.{command, behind, handle}
use esp32_dap_proxy.Dap.Handle.Total.{handle-Answered}
use esp32_dap_proxy.Dap.Keeps.{Keeps, bind-Holds, if-Holds}
use esp32_dap_proxy.Dap.Keeps.Commands.{
  IsKept, KeptReply, byte-Keeps, dap_info-Keeps, dap_connect-Keeps, dap_transfer_config-Keeps,
  dap_write_abort-Keeps, dap_swj_sequence-Keeps, dap_swj_pins-Keeps,
}
use esp32_dap_proxy.Dap.Keeps.Transfers.{dap_transfer-Keeps, dap_transfer_block-Keeps}

module _ (t : Transport) (P : t.State → Type 0) where
  command-Keeps :
      Keeps t P
      → (d : Dap t) (id : ℕ) (req resp : List ℕ) → P d.transport
      → All IsByte resp
      → KeptReply t P (command t d id req resp)
  unfolding command dap_swj_clock
  command-Keeps kept d id req resp h k =
      let Q = KeptReply t P in
      let ack = byte-Keeps t P d 0x00 resp h (omega arith) k in
      let other = byte-Keeps t P d 0xFF resp h (omega arith) k in
      if-Holds Q (id == 0x00) _ _ (dap_info-Keeps t P d req resp h k) (
        if-Holds Q (id == 0x02) _ _ (dap_connect-Keeps t P kept d resp h k) (
          if-Holds Q (id == 0x03) _ _ ack (
            if-Holds Q (id == 0x01) _ _ ack (
              if-Holds Q (id == 0x04) _ _ (dap_transfer_config-Keeps t P kept d req resp h k) (
                if-Holds Q (id == 0x05) _ _ (dap_transfer-Keeps t P kept d req resp h k) (
                  if-Holds Q (id == 0x06) _ _ (dap_transfer_block-Keeps t P kept d req resp h k) (
                    if-Holds Q (id == 0x08) _ _ (dap_write_abort-Keeps t P kept d req resp h k) (
                      if-Holds Q (id == 0x10) _ _ (dap_swj_pins-Keeps t P kept d req resp h k) (
                        if-Holds Q (id == 0x11) _ _ ack (
                          if-Holds Q (id == 0x13) _ _ ack (
                            if-Holds Q (id == 0x12) _ _
                              (dap_swj_sequence-Keeps t P kept d req resp h k) other)))))))))))

  behind-Keeps :
      (id : ℕ) (r : Reply t) → IsByte id → KeptReply t P r → KeptReply t P (behind t id r)
  behind-Keeps id r h k =
      bind-Holds (IsKept t P) (IsKept t P) r _ k (λ (d, resp, n) (p, b). (p, (h, b)))

  pub handle-KeptReply :
      Keeps t P
      → (d : Dap t) (req resp : List ℕ) → P d.transport
      → All IsByte req
      → All IsByte resp
      → KeptReply t P (handle t d req resp)
  unfolding handle
  handle-KeptReply kept d req [] h b k = tt
  handle-KeptReply kept d [] (x ∷ resp) h b k = (h, (omega arith, k.1))
  handle-KeptReply kept d (id ∷ args) (x ∷ resp) h b k =
      behind-Keeps id (command t d id (id ∷ args) resp) b.0
        (command-Keeps kept d id (id ∷ args) resp h k.1)

  -- Of bytes, with a buffer of 1024 bytes, every request leaves 1024 bytes in the buffer; and a
  -- property of the transport that each of its methods keeps holds of it afterwards if it held
  -- before. Pins read under that property fit a byte.
  pub handle-Keeps :
      (d : Dap t) (req resp : List ℕ)
      → Keeps t P
      → P d.transport
      → All IsByte req
      → All IsByte resp
      → length resp ≡ 1024
      → (d' : Dap t) × (resp' : List ℕ) × (n : ℕ) × (handle t d req resp ≡ some (d', resp', n))
        × P d'.transport
        × All IsByte resp'
        × (length resp' ≡ 1024)
  handle-Keeps d req resp kept h b k size =
      let (d', resp', n, e, long, least, most) = handle-Answered t d req resp b size in
      let after = subst (KeptReply t P) e (handle-KeptReply kept d req resp h b k) in
      (d', resp', n, e, after.0, after.1, long)
