-- ===== src/Remote/Tests.antt =====
-- A host and a probe: the network brings every byte in a read of its own.
use esp32_dap_proxy.Prelude.{
  ℕ, suc, ◌≤◌, ◌≡◌, refl, ap, none, some, List, [], ◌∷◌, map, ok, arith, length, take, replicate,
  length-replicate,
}
use esp32_dap_proxy.Prelude.Bytes.{All, IsU32}
use esp32_dap_proxy.Tcp.Chunks.{joined}
use esp32_dap_proxy.Transport.{Transport}
use esp32_dap_proxy.Dap.State.{Dap, new}
use esp32_dap_proxy.Dap.Handle.{handle}
use esp32_dap_proxy.Dap.Serve.{Session}
use esp32_dap_proxy.Link.{DapLink}
use esp32_dap_proxy.Metrics.{zeroed}
use esp32_dap_proxy.Usbip.Loopback.{tcp, delivers}
use esp32_dap_proxy.Usbip.Serve.{Device}
use esp32_dap_proxy.Usbip.Client.{Submit}
use esp32_dap_proxy.Usbip.Bulk.{IsOut, IsIn, Brings}
use esp32_dap_proxy.Remote.{Network, probe_net, IsReady}
use esp32_dap_proxy.Remote.Command.{IsCommand, request_all, handle_all, request_all-handle_all}
use esp32_dap_proxy.Remote.Usb.{urb_loop-handle}

abbrev target : Transport
target = record {
  State = ℕ;
  init = λ s. (ok tt, s);
  reset_state = λ s. s;
  swj_sequence = λ count bytes s. (ok tt, s);
  swj_pins = λ out sel wait_ms s. (ok out, s);
  read_dp = λ a s. (ok s, suc s);
  write_dp = λ a v s. (ok tt, s);
  read_ap = λ select a s. (ok s, suc s);
  write_ap = λ select a v s. (ok tt, s);
}

abbrev bytewise : List ℕ → List (List ℕ)
bytewise [] = []
bytewise (b ∷ bs) = (b ∷ []) ∷ bytewise bs

joined-bytewise : (bytes : List ℕ) → joined (bytewise bytes) ≡ bytes
joined-bytewise [] = refl
joined-bytewise (b ∷ bs) = ap (λ cs. b ∷ cs) (joined-bytewise bs)

bytewise_full : (bytes : List ℕ) → All (λ c. 1 ≤ length c) (bytewise bytes)
bytewise_full [] = tt
bytewise_full (b ∷ bs) = (omega arith, bytewise_full bs)

abbrev network : Network
network = record { cut = bytewise; joined-cut = joined-bytewise; cut-full = bytewise_full }

abbrev waiting_session : Session target
waiting_session = record {
  dap = new target 7;
  deframer = esp32_dap_proxy.Frame.new 1024;
  resp = replicate 1024 0;
  sent = [];
}

waiting_session-IsReady : IsReady target network waiting_session
waiting_session-IsReady = record {
  idle = record { full = length-replicate {A = ℕ} 1024 0; idle = refl };
  low = omega arith;
  size = length-replicate {A = ℕ} 1024 0;
  read = refl;
}

abbrev linked : DapLink (probe_net target network)
linked = record {
  world = waiting_session;
  stream = some waiting_session;
  requests = 0;
  retries = 0;
  errors = 0;
  last_error = none;
}

-- A transfer of one read.
abbrev one_read : List ℕ
one_read = 0x05 ∷ 0x00 ∷ 1 ∷ 0x02 ∷ []

one_read-IsCommand : IsCommand one_read
one_read-IsCommand = record { not_empty = omega arith; fits = omega arith; bytes = ground arith }

request_all-handle_all_example :
    request_all target network (one_read ∷ one_read ∷ []) linked
    ≡ map
        (λ r. ok r)
        (handle_all target network (one_read ∷ one_read ∷ []) (new target 7) (replicate 1024 0))
request_all-handle_all_example =
    request_all-handle_all target network (one_read ∷ one_read ∷ []) linked waiting_session refl
      waiting_session-IsReady (one_read-IsCommand, (one_read-IsCommand, tt))

abbrev device : Device (probe_net target network)
device = record { bridge = record { link = linked; pending = none }; counters = zeroed }

-- The client's transfers: a command out, and reads of 24 and of 1000 bytes.
abbrev out_transfer : Submit
out_transfer = record {
  seqnum = 9;
  devid = 0x10001;
  direction = 0;
  ep = 1;
  flags = 0;
  transfer_len = 4;
  start_frame = 0;
  packets = 0;
  interval = 4;
  setup = replicate 8 0;
  payload = one_read;
}

abbrev in_transfer : (seqnum limit : ℕ) → Submit
in_transfer seqnum limit = record out_transfer {
  seqnum = seqnum;
  direction = 1;
  flags = 0x200;
  transfer_len = limit;
  payload = [];
}

abbrev in_transfers : List Submit
in_transfers = in_transfer 10 24 ∷ in_transfer 11 1000 ∷ []

out_transfer-IsOut : IsOut out_transfer
out_transfer-IsOut = record {
  well_formed = record {
    seqnum_u32 = omega arith;
    direction_u32 = omega arith;
    ep_u32 = omega arith;
    transfer_len_u32 = omega arith;
    setup_len = refl;
    payload_len = refl;
  };
  bulk = ground arith;
  direction = refl;
}

in_transfer-IsIn : (seqnum limit : ℕ) → IsU32 seqnum → IsU32 limit → IsIn (in_transfer seqnum limit)
in_transfer-IsIn seqnum limit q l = record {
  well_formed = record {
    seqnum_u32 = q;
    direction_u32 = omega arith;
    ep_u32 = omega arith;
    transfer_len_u32 = l;
    setup_len = refl;
    payload_len = refl;
  };
  bulk = ground arith;
  direction = refl;
}

in_transfers-IsIn : All IsIn in_transfers
in_transfers-IsIn = (
  in_transfer-IsIn 10 24 (omega arith) (omega arith),
  (in_transfer-IsIn 11 1000 (omega arith) (omega arith), tt),
)

urb_loop-handle_example :
    (dap : Dap target) × (resp : List ℕ) × (n : ℕ) × (handle target
        (new target 7)
        one_read
        (replicate 1024 0)
      ≡ some (dap, resp, n))
    × Brings
        (probe_net target network)
        tcp
        delivers
        out_transfer
        in_transfers
        []
        device
        (take n resp)
urb_loop-handle_example =
    urb_loop-handle target network tcp delivers out_transfer in_transfers [] device waiting_session
      refl waiting_session-IsReady one_read-IsCommand out_transfer-IsOut in_transfers-IsIn
      (omega arith)
