-- ===== src/Usbip/Tests.antt =====
-- Runs of usbip.rs: a client that asks for the device's descriptor and for a DAP command.
use esp32_dap_proxy.Prelude.{
  replicate, ℕ, ◌≡◌, refl, true, some, List, [], ◌∷◌, ◌++◌, ok, err, leb, arith, if◌then◌else◌,
  length, take, drop,
}
use esp32_dap_proxy.Prelude.Bytes.{All, IsU32}
use esp32_dap_proxy.Frame.Wire.{encode, head_bytes}
use esp32_dap_proxy.Link.{
  Net, end_of_stream, connect, request, try_request, ensure, write_all, read_frame, skip,
  read_payload, read_exact,
}
use esp32_dap_proxy.Bridge.{new}
use esp32_dap_proxy.Metrics.{zeroed}
use esp32_dap_proxy.Usbip.Loopback.{tcp, delivers, client}
use esp32_dap_proxy.Usbip.Reply.{devlist_reply, import_reply}
use esp32_dap_proxy.Usbip.Control.{ep0_control, control_payload}
use esp32_dap_proxy.Usbip.Control.Descriptor.{IsAsked, ep0_control-IsAsked}
use esp32_dap_proxy.Usbip.Serve.{Device, closed, urb_loop}
use esp32_dap_proxy.Usbip.Client.{Submit, Urb, IsUrb, submit, unlink, wire_of, parse_rets, Ret}
use esp32_dap_proxy.Usbip.Session.{conn, respond_all}
use esp32_dap_proxy.Usbip.Exchange.{urb_loop-respond_all}
use esp32_dap_proxy.Usbip.Tally.{tally, Tallied, AreU64, urb_loop-Tallied}
use esp32_dap_proxy.Prelude.Text.{codes}
use esp32_dap_proxy.Prelude.Numbers.{digits}
use esp32_dap_proxy.Usbip.Describe.{describe_dap_status}
use esp32_dap_proxy.Usbip.Bulk.{IsOut, IsIn, Brings, urb_loop-bulk}
use esp32_dap_proxy.Usbip.Attach.{counted, handle_connection}
use esp32_dap_proxy.Usbip.Handshake.{
  devlist_request, import_request, repeated, handle_connection-session,
}
use esp32_dap_proxy.Usbip.Total.{is_over}
use esp32_dap_proxy.Usbip.Total.Connection.{handle_connection-is_over}

-- Every connection to the target brings the same response.
abbrev net : Net
net = record {
  World = Unit {0};
  Stream = List ℕ;
  connect = λ w. (ok (0xDA ∷ 5 ∷ 0 ∷ 1 ∷ 2 ∷ 3 ∷ 4 ∷ 5 ∷ []), w);
  read_exact =
      λ n s. if leb n (length s) then (ok (take n s), drop n s) else (err end_of_stream, s);
  write_all = λ bytes s. (ok tt, s);
}

abbrev device : Device net
device = record { bridge = new net tt; counters = zeroed }

-- GET_DESCRIPTOR of the device, on endpoint 0.
abbrev get_descriptor : Submit
get_descriptor = record {
  seqnum = 7;
  devid = 0;
  direction = 1;
  ep = 0;
  flags = 0;
  transfer_len = 64;
  start_frame = 0;
  packets = 0;
  interval = 0;
  setup = 0x80 ∷ 0x06 ∷ 0x00 ∷ 0x01 ∷ 0 ∷ 0 ∷ 64 ∷ 0 ∷ [];
  payload = [];
}

abbrev urbs : List Urb
urbs = submit get_descriptor ∷ unlink 8 0 7 ∷ []

urbs-IsUrb : All IsUrb urbs
urbs-IsUrb = (
  record {
    seqnum_u32 = omega arith;
    direction_u32 = omega arith;
    ep_u32 = omega arith;
    transfer_len_u32 = omega arith;
    setup_len = refl;
    payload_len = refl;
  },
  (omega arith, tt),
)

ep0_control-IsAsked_example : IsAsked 1 (ep0_control (0x80 ∷ 0x06 ∷ 0 ∷ 1 ∷ 0 ∷ 0 ∷ 64 ∷ 0 ∷ [])).1
unfolding ep0_control control_payload
ep0_control-IsAsked_example =
    ep0_control-IsAsked 0 1 0 0 64 0 (omega arith) (omega arith) (omega arith) refl

urb_loop-respond_all_example :
    (out : List ℕ) × (urb_loop net tcp 3 (conn net tcp delivers (wire_of urbs) [] device)
      ≡ closed (conn net tcp delivers [] out (respond_all net urbs device).1))
    × (parse_rets 2 out ≡ some ((respond_all net urbs device).0, []))
urb_loop-respond_all_example = urb_loop-respond_all net tcp delivers urbs [] device urbs-IsUrb

responds :
    request net (0x00 ∷ []) device.bridge.link
    ≡ (ok (1 ∷ 2 ∷ 3 ∷ 4 ∷ 5 ∷ []), (request net (0x00 ∷ []) device.bridge.link).1)
unfolding request try_request ensure connect write_all encode head_bytes read_frame skip
    read_payload read_exact
responds = refl

-- A client's transfers, on device 0x10001: a command out, and reads of 2, of 1 and of 64 bytes.
abbrev out_transfer : Submit
out_transfer = record get_descriptor {
  seqnum = 9;
  devid = 0x10001;
  direction = 0;
  ep = 1;
  transfer_len = 1;
  interval = 4;
  setup = replicate 8 0;
  payload = 0x00 ∷ [];
}

abbrev in_transfer : (seqnum limit : ℕ) → Submit
in_transfer seqnum limit = record get_descriptor {
  seqnum = seqnum;
  devid = 0x10001;
  ep = 1;
  flags = 0x200;
  transfer_len = limit;
  setup = replicate 8 0;
}

abbrev in_transfers : List Submit
in_transfers = in_transfer 10 2 ∷ in_transfer 11 1 ∷ in_transfer 12 64 ∷ []

out_transfer-IsOut : IsOut out_transfer
out_transfer-IsOut = record {
  well_formed = record {
    seqnum_u32 = omega arith;
    direction_u32 = omega arith;
    ep_u32 = omega arith;
    transfer_len_u32 = omega arith;
    setup_len = refl;
    payload_len = refl;
  };
  bulk = ground arith;
  direction = refl;
}

in_transfer-IsIn : (seqnum limit : ℕ) → IsU32 seqnum → IsU32 limit → IsIn (in_transfer seqnum limit)
in_transfer-IsIn seqnum limit q l = record {
  well_formed = record {
    seqnum_u32 = q;
    direction_u32 = omega arith;
    ep_u32 = omega arith;
    transfer_len_u32 = l;
    setup_len = refl;
    payload_len = refl;
  };
  bulk = ground arith;
  direction = refl;
}

in_transfers-IsIn : All IsIn in_transfers
in_transfers-IsIn = (
  in_transfer-IsIn 10 2 (omega arith) (omega arith),
  (
    in_transfer-IsIn 11 1 (omega arith) (omega arith),
    (in_transfer-IsIn 12 64 (omega arith) (omega arith), tt),
  ),
)

urb_loop-bulk_example :
    Brings net tcp delivers out_transfer in_transfers [] device (1 ∷ 2 ∷ 3 ∷ 4 ∷ 5 ∷ [])
urb_loop-bulk_example =
    urb_loop-bulk net tcp delivers out_transfer in_transfers (1 ∷ 2 ∷ 3 ∷ 4 ∷ 5 ∷ []) [] device
      (request net (0x00 ∷ []) device.bridge.link).1 out_transfer-IsOut in_transfers-IsIn responds
      (omega arith)

handle_connection-session_example :
    (out : List ℕ) × (handle_connection net tcp 2 3 (
        conn net tcp delivers
          (repeated 1 devlist_request ++ (import_request ++ wire_of urbs))
          []
          device)
      ≡ closed (
          conn net tcp delivers []
            ((repeated 1 devlist_reply ++ import_reply) ++ out)
            (respond_all net urbs (counted net device)).1))
    × (parse_rets 2 out ≡ some ((respond_all net urbs (counted net device)).0, []))
handle_connection-session_example =
    handle_connection-session net tcp delivers 1 urbs [] device urbs-IsUrb

-- A request for the list of devices, one to attach another device, and nothing more.
abbrev refused : List ℕ
refused = devlist_request ++ (take 8 import_request ++ replicate 32 0x31)

handle_connection-is_over_example :
    is_over net tcp client
      (handle_connection net tcp 49 49 (conn net tcp delivers refused [] device))
    ≡ true
handle_connection-is_over_example =
    handle_connection-is_over net tcp client 49 49 (conn net tcp delivers refused [] device)
      (omega arith) (omega arith)

device-AreU64 : AreU64 device.counters
device-AreU64 = record {
  usb_sessions = omega arith;
  ep0_requests = omega arith;
  ep1_out_frames = omega arith;
  ep1_out_bytes = omega arith;
  ep1_in_frames = omega arith;
  ep1_in_bytes = omega arith;
}

urb_loop-Tallied_example :
    (out : List ℕ) × (rets : List Ret) × (d' : Device net) × (urb_loop net tcp 3
        (conn net tcp delivers (wire_of urbs) [] device)
      ≡ closed (conn net tcp delivers [] out d'))
    × (parse_rets 2 out ≡ some (rets, []))
    × Tallied zeroed (tally urbs rets) d'.counters
urb_loop-Tallied_example = urb_loop-Tallied net tcp delivers urbs [] device urbs-IsUrb device-AreU64

described :
    describe_dap_status (0x06 ∷ 0x2C ∷ 0x01 ∷ 0x1F ∷ 0x00 ∷ []) ≡ codes " count=300 status=0x1F"
unfolding describe_dap_status digits
described = refl
