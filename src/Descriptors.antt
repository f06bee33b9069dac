-- ===== src/Descriptors.antt =====
-- esp-daplink-host/src/descriptors.rs: the descriptors of the virtual USB device.
use esp32_dap_proxy.Prelude.{
  ℕ, ◌+◌, ◌*◌, ◌/◌, ◌%◌, ◌^◌, Option, none, some, List, [], ◌∷◌, ◌++◌, ◌==◌, if◌then◌else◌, length,
  bit_and,
}
use esp32_dap_proxy.Prelude.Bytes.{u16_to_le_bytes}
use esp32_dap_proxy.Prelude.Text.{codes}

abbrev pub usbip_path : List ℕ
usbip_path = codes "/sys/v_cmsisdap"

abbrev pub usbip_busid : List ℕ
usbip_busid = codes "1-1"

abbrev pub vid : ℕ
vid = 0x1209

abbrev pub pid : ℕ
pid = 0x0001

abbrev pub bcd_device : ℕ
bcd_device = 0x0200

abbrev pub vendor : List ℕ
vendor = codes "esp-daplink"

abbrev pub product : List ℕ
product = codes "ESP-DAPLink CMSIS-DAP v2"

abbrev pub serial : List ℕ
serial = codes "ESP32-DAPLINK-0001"

abbrev pub interface : List ℕ
interface = codes "CMSIS-DAP v2"

-- `(v & 0xFF) as u8` and `(v >> 8) as u8`
abbrev pub low_byte : ℕ → ℕ
low_byte v = bit_and v 0xFF % 2 ^ 8

abbrev pub high_byte : ℕ → ℕ
high_byte v = v / 2 ^ 8 % 2 ^ 8

abbrev pub device_descriptor : List ℕ
device_descriptor =
    18
    ∷ 0x01
    ∷ 0x00
    ∷ 0x02
    ∷ 0x00
    ∷ 0x00
    ∷ 0x00
    ∷ 64
    ∷ low_byte vid
    ∷ high_byte vid
    ∷ low_byte pid
    ∷ high_byte pid
    ∷ low_byte bcd_device
    ∷ high_byte bcd_device
    ∷ 1
    ∷ 2
    ∷ 3
    ∷ 1
    ∷ []

abbrev pub config_descriptor : List ℕ
config_descriptor =
    9 ∷ 0x02 ∷ 32 ∷ 0x00 ∷ 1 ∷ 1 ∷ 0 ∷ 0x80 ∷ 250 ∷ 9 ∷ 0x04 ∷ 0 ∷ 0 ∷ 2 ∷ 0xFF ∷ 0x00 ∷ 0x00 ∷ 4
    ∷ 7 ∷ 0x05 ∷ 0x01 ∷ 0x02 ∷ 0x00 ∷ 0x02 ∷ 0 ∷ 7 ∷ 0x05 ∷ 0x81 ∷ 0x02 ∷ 0x00 ∷ 0x02 ∷ 0 ∷ []

abbrev pub langid_descriptor : List ℕ
langid_descriptor = 4 ∷ 0x03 ∷ 0x09 ∷ 0x04 ∷ []

-- The loop over `s.encode_utf16()`, for characters below 0x10000.
abbrev pub utf16_bytes : List ℕ → List ℕ
utf16_bytes [] = []
utf16_bytes (c ∷ cs) = u16_to_le_bytes c ++ utf16_bytes cs

-- From `let mut out` on.
unfoldable pub text_descriptor : List ℕ → List ℕ
text_descriptor s = ((2 + length s * 2) % 2 ^ 8) ∷ 0x03 ∷ utf16_bytes s

unfoldable pub string_descriptor : ℕ → Option (List ℕ)
unfolding text_descriptor
string_descriptor index =
    if index == 0
    then some langid_descriptor
    else if index == 1
    then some (text_descriptor vendor)
    else if index == 2
    then some (text_descriptor product)
    else if index == 3
    then some (text_descriptor serial)
    else if index == 4
    then some (text_descriptor interface)
    else none
