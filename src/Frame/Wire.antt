-- ===== src/Frame/Wire.antt =====
-- The wire form of a frame, as the target's `send_frame` (channel/tcp.rs) and the host's
-- `try_request` (esp-daplink-host/src/link.rs) write it.
use esp32_dap_proxy.Prelude.{ℕ, ◌/◌, ◌%◌, List, [], ◌∷◌, ◌++◌, length, bit_and}
use esp32_dap_proxy.Frame.{frame_magic}

-- `[FRAME_MAGIC, (len & 0xFF) as u8, (len >> 8) as u8]`
unfoldable pub head_bytes : ℕ → List ℕ
head_bytes len = frame_magic ∷ (bit_and len 0xff % 256) ∷ (len / 256 % 256) ∷ []

unfoldable pub encode : List ℕ → List ℕ
unfolding head_bytes
encode payload = head_bytes (length payload) ++ payload
