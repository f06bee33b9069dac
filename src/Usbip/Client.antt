-- ===== src/Usbip/Client.antt =====
-- The client's side of the USB/IP protocol: the commands that it sends to the loop of usbip.rs, and
-- how it reads the replies.
use esp32_dap_proxy.Prelude.{
  ℕ, zero, suc, ◌≡◌, Option, none, some, List, [], ◌∷◌, ◌++◌, ◌>>=◌, ◌==◌, leb, if◌then◌else◌,
  length, take, drop, replicate,
}
use esp32_dap_proxy.Prelude.Bytes.{IsU32, u32_to_be_bytes}
use esp32_dap_proxy.Usbip.Serve.{field}

-- CMD_SUBMIT: a header with the setup packet of eight bytes, and the data of an OUT transfer.
pub record Submit : Type 0 where
  pub seqnum : ℕ
  pub devid : ℕ
  pub direction : ℕ
  pub ep : ℕ
  pub flags : ℕ
  pub transfer_len : ℕ
  pub start_frame : ℕ
  pub packets : ℕ
  pub interval : ℕ
  pub setup : List ℕ
  pub payload : List ℕ

pub data Urb : Type 0 where
  submit : Submit → Urb
  unlink : (seqnum devid target : ℕ) → Urb

abbrev pub submit_header : Submit → List ℕ
submit_header s =
    u32_to_be_bytes 1
    ++ (u32_to_be_bytes s.seqnum
        ++ (u32_to_be_bytes s.devid
            ++ (u32_to_be_bytes s.direction
                ++ (u32_to_be_bytes s.ep
                    ++ (u32_to_be_bytes s.flags
                        ++ (u32_to_be_bytes s.transfer_len
                            ++ (u32_to_be_bytes s.start_frame
                                ++ (u32_to_be_bytes s.packets
                                    ++ (u32_to_be_bytes s.interval ++ s.setup)))))))))

abbrev pub unlink_header : ℕ → ℕ → ℕ → List ℕ
unlink_header seqnum devid target =
    u32_to_be_bytes 2
    ++ (u32_to_be_bytes seqnum
        ++ (u32_to_be_bytes devid
            ++ (u32_to_be_bytes 0
                ++ (u32_to_be_bytes 0 ++ (u32_to_be_bytes target ++ replicate 24 0)))))

abbrev pub encode_urb : Urb → List ℕ
encode_urb (submit s) = submit_header s ++ s.payload
encode_urb (unlink seqnum devid target) = unlink_header seqnum devid target

abbrev pub wire_of : List Urb → List ℕ
wire_of [] = []
wire_of (u ∷ us) = encode_urb u ++ wire_of us

-- The numbers fit their fields, and data goes along exactly with an OUT transfer.
pub record IsSubmit (s : Submit) : Type 0 where
  pub seqnum_u32 : IsU32 s.seqnum
  pub direction_u32 : IsU32 s.direction
  pub ep_u32 : IsU32 s.ep
  pub transfer_len_u32 : IsU32 s.transfer_len
  pub setup_len : length s.setup ≡ 8
  pub payload_len : length s.payload ≡ (if s.direction == 0 then s.transfer_len else 0)

abbrev pub IsUrb : Urb → Type 0
IsUrb (submit s) = IsSubmit s
IsUrb (unlink seqnum devid target) = IsU32 seqnum

-- RET_SUBMIT and RET_UNLINK, as the client reads them.
pub data Ret : Type 0 where
  submitted : (seqnum status : ℕ) → List ℕ → Ret
  unlinked : (seqnum : ℕ) → Ret

-- The status and the data behind a header of 48 bytes.
abbrev pub split_data : ℕ → (List ℕ → Ret) → List ℕ → Option (Ret × List ℕ)
split_data n ret bytes =
    if leb n (length bytes) then some (ret (take n bytes), drop n bytes) else none

unfoldable pub parse_ret : List ℕ → Option (Ret × List ℕ)
parse_ret bytes =
    if leb 48 (length bytes)
    then (if field 0 bytes == 3
        then split_data (field 24 bytes) (submitted (field 4 bytes) (field 20 bytes))
            (drop 48 bytes)
        else if field 0 bytes == 4
        then some (unlinked (field 4 bytes), drop 48 bytes)
        else none)
    else none

-- So many replies, one behind the other, and what is left.
unfoldable pub parse_rets : ℕ → List ℕ → Option (List Ret × List ℕ)
parse_rets zero bytes = some ([], bytes)
parse_rets (suc n) bytes =
    parse_ret bytes >>= λ (r, rest). parse_rets n rest >>= λ (rs, rest'). some (r ∷ rs, rest')
