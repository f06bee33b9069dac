-- ===== src/Dap/Handle.antt =====
-- `handle` of cmd/dap.rs: one request in, one response out.
pub mod Commands
pub mod Transfers
pub mod Total
use esp32_dap_proxy.Prelude.{ℕ, ◌+◌, Option, none, some, List, [], ◌∷◌, ◌>>=◌, ◌==◌, if◌then◌else◌}
use esp32_dap_proxy.Transport.{Transport}
use esp32_dap_proxy.Dap.State.{Dap}
use esp32_dap_proxy.Dap.Transfer.{dap_transfer}
use esp32_dap_proxy.Dap.Block.{dap_transfer_block}
use esp32_dap_proxy.Dap.Simple.{
  Reply, answer, dap_info, dap_connect, dap_transfer_config, dap_write_abort, dap_swj_clock,
  dap_swj_sequence, dap_swj_pins,
}

module _ (t : Transport) where
  -- The match on `req[0]`, on the buffer behind the byte that echoes it.
  unfoldable pub command : Dap t → ℕ → List ℕ → List ℕ → Reply t
  command d id req resp =
      if id == 0x00
      then dap_info t d req resp
      else if id == 0x02
      then dap_connect t d resp
      else if id == 0x03
      then answer t d (0x00 ∷ []) resp
      else if id == 0x01
      then answer t d (0x00 ∷ []) resp
      else if id == 0x04
      then dap_transfer_config t d req resp
      else if id == 0x05
      then dap_transfer t d req resp
      else if id == 0x06
      then dap_transfer_block t d req resp
      else if id == 0x08
      then dap_write_abort t d req resp
      else if id == 0x10
      then dap_swj_pins t d req resp
      else if id == 0x11
      then dap_swj_clock t d resp
      else if id == 0x13
      then answer t d (0x00 ∷ []) resp
      else if id == 0x12
      then dap_swj_sequence t d req resp
      else answer t d (0xFF ∷ []) resp

  -- `resp[0] = req[0]`, and `1 +` the count of the command.
  abbrev pub behind : ℕ → Reply t → Reply t
  behind id r = r >>= λ (d, resp, n). some (d, id ∷ resp, 1 + n)

  unfoldable pub handle : Dap t → List ℕ → List ℕ → Reply t
  unfolding command
  handle d req [] = none
  handle d [] (x ∷ resp) = some (d, 0xFF ∷ resp, 1)
  handle d (id ∷ args) (x ∷ resp) = behind id (command d id (id ∷ args) resp)
