-- ===== src/Usbip/Reply.antt =====
-- The replies of usbip.rs.
use esp32_dap_proxy.Prelude.{ℕ, ◌%◌, ◌^◌, List, [], ◌∷◌, ◌++◌, ◌-◌, length, replicate}
use esp32_dap_proxy.Prelude.Bytes.{u16_to_be_bytes, u32_to_be_bytes}
use esp32_dap_proxy.Descriptors.{usbip_path, usbip_busid, vid, pid, bcd_device}

abbrev pub version : ℕ
version = 0x0111

abbrev pub op_rep_devlist : ℕ
op_rep_devlist = 0x0005

abbrev pub op_rep_import : ℕ
op_rep_import = 0x0003

abbrev pub ret_submit : ℕ
ret_submit = 0x0003

abbrev pub ret_unlink : ℕ
ret_unlink = 0x0004

-- A text in an array of zeros that is long enough for it.
abbrev pub padded : ℕ → List ℕ → List ℕ
padded n text = text ++ replicate (n - length text) 0

-- What `push_device_body` appends.
unfoldable pub device_body : List ℕ
device_body =
    padded 256 usbip_path
    ++ (padded 32 usbip_busid
        ++ (u32_to_be_bytes 1
            ++ (u32_to_be_bytes 1
                ++ (u32_to_be_bytes 3
                    ++ (u16_to_be_bytes vid
                        ++ (u16_to_be_bytes pid
                            ++ (u16_to_be_bytes bcd_device
                                ++ (0x00 ∷ 0x00 ∷ 0x00 ∷ 0x01 ∷ 0x01 ∷ 0x01 ∷ []))))))))

-- The vector of `reply_devlist`.
unfoldable pub devlist_reply : List ℕ
devlist_reply =
    u16_to_be_bytes version
    ++ (u16_to_be_bytes op_rep_devlist
        ++ (u32_to_be_bytes 0
            ++ (u32_to_be_bytes 1 ++ (device_body ++ (0xFF ∷ 0x00 ∷ 0x00 ∷ 0x00 ∷ [])))))

-- The vectors of `reply_import`, refused and accepted.
unfoldable pub import_refusal : List ℕ
import_refusal = u16_to_be_bytes version ++ (u16_to_be_bytes op_rep_import ++ u32_to_be_bytes 1)

unfoldable pub import_reply : List ℕ
import_reply =
    u16_to_be_bytes version ++ (u16_to_be_bytes op_rep_import ++ (u32_to_be_bytes 0 ++ device_body))

-- The vector of `send_ret_submit`; the statuses are not negative.
unfoldable pub submit_reply : ℕ → ℕ → List ℕ → List ℕ
submit_reply seqnum status bytes =
    u32_to_be_bytes ret_submit
    ++ (u32_to_be_bytes seqnum
        ++ (u32_to_be_bytes 0
            ++ (u32_to_be_bytes 0
                ++ (u32_to_be_bytes 0
                    ++ (u32_to_be_bytes status
                        ++ (u32_to_be_bytes (length bytes % 2 ^ 32)
                            ++ (u32_to_be_bytes 0
                                ++ (u32_to_be_bytes 0
                                    ++ (u32_to_be_bytes 0 ++ (replicate 8 0 ++ bytes))))))))))

-- The vector of `send_ret_unlink`.
unfoldable pub unlink_reply : ℕ → List ℕ
unlink_reply seqnum =
    u32_to_be_bytes ret_unlink
    ++ (u32_to_be_bytes seqnum
        ++ (u32_to_be_bytes 0
            ++ (u32_to_be_bytes 0 ++ (u32_to_be_bytes 0 ++ (u32_to_be_bytes 0 ++ replicate 24 0)))))
