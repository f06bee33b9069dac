-- ===== src/Usbip/Attach.antt =====
-- `handle_connection` of usbip.rs: the requests in front of the loop over the URBs.
use esp32_dap_proxy.Prelude.{
  ℕ, zero, suc, Bool, Option, none, some, List, [], ◌∷◌, ◌==◌, if◌then◌else◌, get_or,
}
use esp32_dap_proxy.Prelude.Bytes.{u16_from_be_bytes}
use esp32_dap_proxy.Prelude.Text.{text_eq}
use esp32_dap_proxy.Descriptors.{usbip_busid}
use esp32_dap_proxy.Link.{Net}
use esp32_dap_proxy.Metrics.{bump}
use esp32_dap_proxy.Usbip.Stream.{TcpStream, write}
use esp32_dap_proxy.Usbip.Reply.{version, devlist_reply, import_refusal, import_reply}
use esp32_dap_proxy.Usbip.Serve.{
  Device, Conn, Ending, closed, broke, out_of_fuel, after_write, urb_loop,
}

abbrev pub op_req_devlist : ℕ
op_req_devlist = 0x8005

abbrev pub op_req_import : ℕ
op_req_import = 0x8003

-- `trim_end_matches('\0')`
abbrev pub trim_cons : ℕ → List ℕ → List ℕ
trim_cons x [] = if x == 0 then [] else x ∷ []
trim_cons x (y ∷ ys) = x ∷ y ∷ ys

abbrev pub trim_zeros : List ℕ → List ℕ
trim_zeros [] = []
trim_zeros (x ∷ xs) = trim_cons x (trim_zeros xs)

-- `busid == USBIP_BUSID`. The lossy decoding turns a byte that is no UTF-8 into a character that the
-- text does not have, so that the bytes can be compared.
abbrev pub is_ours : List ℕ → Bool
is_ours busid = text_eq (trim_zeros busid) usbip_busid

module _ (net : Net) where
  -- `metrics::bump(&metrics::USB_SESSIONS)`
  abbrev pub counted : Device net → Device net
  counted d =
      let k = d.counters in record d { counters = record k { usb_sessions = bump k.usb_sessions } }

module _ (net : Net) (tcp : TcpStream) where
  -- `reply_import`, and what `handle_connection` does with its result. The refusal is not flushed. A
  -- new bridge has no connection, so that it may as well be there from the start.
  abbrev pub after_busid :
      Option (List ℕ) × tcp.State → Device net → (Conn net tcp → Ending net tcp) → Ending net tcp
  after_busid (none, s) d attached = broke (record { stream = s; device = d })
  after_busid (some busid, s) d attached =
      if is_ours busid
      then after_write net tcp (write tcp import_reply s) (counted net d) attached
      else after_write net tcp (tcp.write_all import_refusal s) d closed

  -- `next` is the next round, and `attached` the loop over the URBs.
  unfoldable pub request :
      List ℕ → Conn net tcp → (next attached : Conn net tcp → Ending net tcp) → Ending net tcp
  request head c next attached =
      let command = u16_from_be_bytes (get_or head 2 0) (get_or head 3 0) in
      if u16_from_be_bytes (get_or head 0 0) (get_or head 1 0) == version
      then (if command == op_req_devlist
          then after_write net tcp (write tcp devlist_reply c.stream) c.device next
          else if command == op_req_import
          then after_busid (tcp.read_exact 32 c.stream) c.device attached
          else closed c)
      else closed c

  abbrev pub after_head :
      Option (List ℕ) × tcp.State
      → Device net
      → (next attached : Conn net tcp → Ending net tcp) → Ending net tcp
  after_head (none, s) d next attached = closed (record { stream = s; device = d })
  after_head (some head, s) d next attached =
      request head (record { stream = s; device = d }) next attached

  -- `handle_connection`, on fuel for its own rounds and for those of the loop over the URBs.
  unfoldable pub handle_connection : ℕ → ℕ → Conn net tcp → Ending net tcp
  handle_connection zero urbs c = out_of_fuel
  handle_connection (suc fuel) urbs c =
      after_head (tcp.read_exact 8 c.stream) c.device (λ c'. handle_connection fuel urbs c')
        (urb_loop net tcp urbs)
