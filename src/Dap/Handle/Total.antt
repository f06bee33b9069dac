-- ===== src/Dap/Handle/Total.antt =====
-- `handle` of cmd/dap.rs answers every request: no index is out of range.
use esp32_dap_proxy.Prelude.{
  ℕ, ◌+◌, ◌≤◌, ◌≡◌, refl, Bool, true, false, List, [], ◌∷◌, arith, ◌==◌, if◌then◌else◌, length,
}
use esp32_dap_proxy.Prelude.Bytes.{IsByte, All}
use esp32_dap_proxy.Transport.{Transport}
use esp32_dap_proxy.Dap.State.{Dap}
use esp32_dap_proxy.Dap.Transfer.{dap_transfer}
use esp32_dap_proxy.Dap.Block.{dap_transfer_block}
use esp32_dap_proxy.Dap.Simple.{Reply}
use esp32_dap_proxy.Dap.Handle.{command, behind, handle}
use esp32_dap_proxy.Dap.Handle.Commands.{
  Answered, one-Answered, dap_info-Answered, dap_connect-Answered, dap_transfer_config-Answered,
  dap_write_abort-Answered, dap_swj_clock-Answered, dap_swj_sequence-Answered,
  dap_swj_pins-Answered,
}
use esp32_dap_proxy.Dap.Handle.Transfers.{dap_transfer-Answered, dap_transfer_block-Answered}

module _ (t : Transport) where
  if-Answered :
      (b : Bool) (size : ℕ) (x y : Reply t)
      → Answered t size x
      → Answered t size y
      → Answered t size (if b then x else y)
  if-Answered true size x y h k = h
  if-Answered false size x y h k = k

  -- The buffer behind the command's byte, of 1023 bytes.
  command-Answered :
      (d : Dap t) (id : ℕ) (req : List ℕ) (x0 x1 x2 : ℕ) (rest : List ℕ)
      → All IsByte req
      → length rest ≡ 1020
      → Answered t (3 + length rest) (command t d id req (x0 ∷ x1 ∷ x2 ∷ rest))
  unfolding command
  command-Answered d id req x0 x1 x2 rest bytes size =
      let resp = x0 ∷ x1 ∷ x2 ∷ rest in
      let room : 1 ≤ length resp = omega arith in
      let ack = one-Answered t d 0x00 resp room in
      let other = one-Answered t d 0xFF resp room in
      rw (← three) (
        if-Answered (id == 0x00) _ _ _ (dap_info-Answered t d req resp (omega arith)) (
          if-Answered (id == 0x02) _ _ _ (dap_connect-Answered t d resp room) (
            if-Answered (id == 0x03) _ _ _ ack (
              if-Answered (id == 0x01) _ _ _ ack (
                if-Answered (id == 0x04) _ _ _ (dap_transfer_config-Answered t d req resp room) (
                  if-Answered (id == 0x05) _ _ _ (transfer) (
                    if-Answered (id == 0x06) _ _ _ (block) (
                      if-Answered (id == 0x08) _ _ _ (dap_write_abort-Answered t d req resp room) (
                        if-Answered (id == 0x10) _ _ _ (dap_swj_pins-Answered t d req resp room) (
                          if-Answered (id == 0x11) _ _ _ (dap_swj_clock-Answered t d resp room) (
                            if-Answered (id == 0x13) _ _ _ ack (
                              if-Answered (id == 0x12) _ _ _
                                (dap_swj_sequence-Answered t d req resp room) other))))))))))))
    where
      three : length (x0 ∷ x1 ∷ x2 ∷ rest) ≡ 3 + length rest
      three = omega arith

      transfer :
          Answered t (length (x0 ∷ x1 ∷ x2 ∷ rest)) (dap_transfer t d req (x0 ∷ x1 ∷ x2 ∷ rest))
      transfer =
          let two : 2 + length (x2 ∷ rest) ≡ length (x0 ∷ x1 ∷ x2 ∷ rest) = omega arith in
          rw two at (dap_transfer-Answered t d req x0 x1 (x2 ∷ rest) bytes (omega arith))

      block :
          Answered t
            (length (x0 ∷ x1 ∷ x2 ∷ rest))
            (dap_transfer_block t d req (x0 ∷ x1 ∷ x2 ∷ rest))
      block = rw three (dap_transfer_block-Answered t d req x0 x1 x2 rest bytes (omega arith))

  behind-Answered :
      (id size : ℕ) (r : Reply t) → Answered t size r → Answered t (1 + size) (behind t id r)
  behind-Answered id size r (d, resp, n, e, l, some_byte, fits) =
      (d, id ∷ resp, 1 + n, rw e, omega arith, omega arith, omega arith)

  -- With the buffer of 1024 bytes that `serve` gives, every request of bytes is answered, whatever
  -- the transport does: no index is out of range, every loop ends, the buffer keeps its size, and the
  -- response has between 1 and 1024 bytes.
  pub handle-Answered :
      (d : Dap t) (req resp : List ℕ)
      → All IsByte req
      → length resp ≡ 1024
      → Answered t 1024 (handle t d req resp)
  unfolding handle
  handle-Answered d [] (x ∷ resp) bytes size =
      (d, 0xFF ∷ resp, 1, refl, size, omega arith, omega arith)
  handle-Answered d (id ∷ args) (x ∷ x0 ∷ x1 ∷ x2 ∷ rest) bytes size =
      let total : 1 + (3 + length rest) ≡ 1024 = omega arith in
      rw total at (
        behind-Answered id (3 + length rest) (command t d id (id ∷ args) (x0 ∷ x1 ∷ x2 ∷ rest))
          (command-Answered d id (id ∷ args) x0 x1 x2 rest bytes (omega arith)))
  handle-Answered d req resp bytes size = absurd (omega arith)
