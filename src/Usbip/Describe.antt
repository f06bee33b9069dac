-- ===== src/Usbip/Describe.antt =====
-- `describe_dap_status` of usbip.rs: what the log says of a response to a transfer.
use esp32_dap_proxy.Prelude.{ℕ, List, [], ◌∷◌, ◌++◌, ◌==◌, if◌then◌else◌}
use esp32_dap_proxy.Prelude.Bytes.{u16_from_le_bytes}
use esp32_dap_proxy.Prelude.Text.{codes}
use esp32_dap_proxy.Prelude.Numbers.{decimal, hex_byte}

abbrev pub counts_text : ℕ → ℕ → List ℕ
counts_text count status =
    codes " count=" ++ (decimal count ++ (codes " status=0x" ++ hex_byte status))

-- The two guards, with the fields that the lengths allow.
abbrev pub describe_transfer : List ℕ → List ℕ
describe_transfer (d1 ∷ d2 ∷ rest) = counts_text d1 d2
describe_transfer _ = []

abbrev pub describe_block : List ℕ → List ℕ
describe_block (d1 ∷ d2 ∷ d3 ∷ rest) = counts_text (u16_from_le_bytes d1 d2) d3
describe_block _ = []

unfoldable pub describe_dap_status : List ℕ → List ℕ
describe_dap_status [] = []
describe_dap_status (id ∷ rest) =
    if id == 0x05 then describe_transfer rest else if id == 0x06 then describe_block rest else []
