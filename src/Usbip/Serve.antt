-- ===== src/Usbip/Serve.antt =====
-- `urb_loop` of usbip.rs.
use esp32_dap_proxy.Prelude.{
  ℕ, zero, suc, ◌+◌, Bool, true, false, ◌&&◌, Option, none, some, List, [], Result, ok, err, ltb,
  ◌==◌, if◌then◌else◌, length, take, drop, get_or,
}
use esp32_dap_proxy.Prelude.Bytes.{u32_from_be_bytes}
use esp32_dap_proxy.Link.{LinkError, Net}
use esp32_dap_proxy.Bridge.{DapBridge, bulk_out, bulk_in}
use esp32_dap_proxy.Metrics.{Counters, bump, add}
use esp32_dap_proxy.Usbip.Stream.{TcpStream, write}
use esp32_dap_proxy.Usbip.Reply.{submit_reply, unlink_reply}
use esp32_dap_proxy.Usbip.Control.{ep0_control, epipe}

abbrev pub cmd_submit : ℕ
cmd_submit = 0x0001

abbrev pub cmd_unlink : ℕ
cmd_unlink = 0x0002

abbrev pub dir_out : ℕ
dir_out = 0

abbrev pub dir_in : ℕ
dir_in = 1

abbrev pub eio : ℕ
eio = 5

abbrev pub header_len : ℕ
header_len = 48

-- `u32::from_be_bytes(hdr[i..i + 4])`; the header has 48 bytes, so that no index is out of range.
abbrev pub field : ℕ → List ℕ → ℕ
field i hdr =
    u32_from_be_bytes (get_or hdr i 0) (get_or hdr (i + 1) 0) (get_or hdr (i + 2) 0)
      (get_or hdr (i + 3) 0)

module _ (net : Net) where
  -- What the commands work on: the bridge and the counters.
  pub record Device : Type 0 where
    pub bridge : DapBridge net
    pub counters : Counters

  -- The status of a submitted URB and its data.
  abbrev pub Answer : Type 0
  Answer = (ℕ × List ℕ) × Device

  unfoldable pub answer_control : List ℕ → Device → Answer
  answer_control setup d =
      let c = d.counters in
      (ep0_control setup, record d { counters = record c { ep0_requests = bump c.ep0_requests } })

  abbrev pub out_answer : ℕ → Result (Unit {0}) LinkError × DapBridge net → Counters → Answer
  out_answer len (ok _, b) c = (
    (0, []),
    record {
      bridge = b;
      counters = record c {
        ep1_out_frames = bump c.ep1_out_frames;
        ep1_out_bytes = add c.ep1_out_bytes len;
      };
    },
  )
  out_answer len (err e, b) c = ((eio, []), record { bridge = b; counters = c })

  unfoldable pub answer_out : List ℕ → Device → Answer
  answer_out out_data d = out_answer (length out_data) (bulk_out net out_data d.bridge) d.counters

  -- `bulk_in` has no error.
  unfoldable pub answer_in : ℕ → Device → Answer
  answer_in transfer_len d =
      let c = d.counters in
      let (bytes, b) = bulk_in net transfer_len d.bridge in
      (
        (0, bytes),
        record {
          bridge = b;
          counters = record c {
            ep1_in_frames = bump c.ep1_in_frames;
            ep1_in_bytes = add c.ep1_in_bytes (length bytes);
          };
        },
      )

  -- The match on `(ep, direction)`.
  unfoldable pub answer_submit : ℕ → ℕ → ℕ → List ℕ → List ℕ → Device → Answer
  answer_submit ep direction transfer_len setup out_data d =
      if ep == 0
      then answer_control setup d
      else if direction == dir_out
      then answer_out out_data d
      else if direction == dir_in
      then answer_in transfer_len d
      else ((epipe, []), d)

module _ (net : Net) (tcp : TcpStream) where
  pub record Conn : Type 0 where
    pub stream : tcp.State
    pub device : Device net

  -- The loop returned `Ok(())`, or the error of a write; or the fuel ran out.
  pub data Ending : Type 0 where
    closed broke : Conn → Ending
    out_of_fuel : Ending

  -- `?` behind a write.
  abbrev pub after_write : Bool × tcp.State → Device net → (Conn → Ending) → Ending
  after_write (true, s) d next = next (record { stream = s; device = d })
  after_write (false, s) d next = broke (record { stream = s; device = d })

  -- The data of an OUT transfer.
  abbrev pub out_data_of : ℕ → ℕ → tcp.State → Option (List ℕ) × tcp.State
  out_data_of direction transfer_len s =
      if (direction == dir_out) && ltb 0 transfer_len
      then tcp.read_exact transfer_len s
      else (some [], s)

  abbrev pub after_data :
      List ℕ → Option (List ℕ) × tcp.State → Device net → (Conn → Ending) → Ending
  after_data hdr (none, s) d next = closed (record { stream = s; device = d })
  after_data hdr (some out_data, s) d next =
      let ((status, bytes), d') =
        answer_submit net (field 16 hdr) (field 12 hdr) (field 24 hdr) (take 8 (drop 40 hdr))
          out_data d in
      after_write (write tcp (submit_reply (field 4 hdr) status bytes) s) d' next

  -- The match on the command.
  unfoldable pub dispatch : List ℕ → Conn → (Conn → Ending) → Ending
  dispatch hdr c next =
      if field 0 hdr == cmd_submit
      then after_data hdr (out_data_of (field 12 hdr) (field 24 hdr) c.stream) c.device next
      else if field 0 hdr == cmd_unlink
      then after_write (write tcp (unlink_reply (field 4 hdr)) c.stream) c.device next
      else closed c

  abbrev pub after_header : Option (List ℕ) × tcp.State → Device net → (Conn → Ending) → Ending
  after_header (none, s) d next = closed (record { stream = s; device = d })
  after_header (some hdr, s) d next = dispatch hdr (record { stream = s; device = d }) next

  -- The loop, on fuel.
  unfoldable pub urb_loop : ℕ → Conn → Ending
  urb_loop zero c = out_of_fuel
  urb_loop (suc fuel) c =
      after_header (tcp.read_exact header_len c.stream) c.device (λ c'. urb_loop fuel c')
