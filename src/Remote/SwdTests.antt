-- ===== src/Remote/SwdTests.antt =====
-- A register read by a USB client, of a target that answers WAIT once and then OK with a word.
use esp32_dap_proxy.Prelude.{
  ℕ, ◌+◌, ◌*◌, ◌/◌, ◌^◌, ◌≤◌, ◌≡◌, refl, append-nil, Bool, some, none, List, [], ◌∷◌, arith, length,
  replicate, length-replicate,
}
use esp32_dap_proxy.Prelude.Bytes.{All, IsU32, u32_to_le_bytes}
use esp32_dap_proxy.Frame
use esp32_dap_proxy.Tcp.Chunks.{joined}
use esp32_dap_proxy.Io.{Io}
use esp32_dap_proxy.Io.Bits.{is_odd, to_bits, count_ones}
use esp32_dap_proxy.Io.Line.{Line, levels}
use esp32_dap_proxy.Swd
use esp32_dap_proxy.Swd.{swd_transport}
use esp32_dap_proxy.Swd.Waits.{DrivesAfter}
use esp32_dap_proxy.Dap.State
use esp32_dap_proxy.Dap.Serve.{Session}
use esp32_dap_proxy.Link.{DapLink}
use esp32_dap_proxy.Metrics.{zeroed}
use esp32_dap_proxy.Usbip.Loopback.{tcp, delivers}
use esp32_dap_proxy.Usbip.Serve.{Device}
use esp32_dap_proxy.Usbip.Client.{Submit}
use esp32_dap_proxy.Usbip.Bulk.{IsOut, IsIn, Brings}
use esp32_dap_proxy.Remote.{Network, probe_net, IsReady}
use esp32_dap_proxy.Remote.Register.{read_request, urb_loop-read}

abbrev word : ℕ
word = 0x2BA01477

-- WAIT at cycle 9, OK at cycle 21 + 9, the word behind it, and its parity bit, which is low.
abbrev script : ℕ
script = 2 ^ 10 + 2 ^ 30 + word * 2 ^ 33

abbrev driven : ℕ → Bool
driven k = is_odd (script / 2 ^ k)

-- The state counts the rising edges of the clock.
abbrev pins : Io
pins = record {
  State = ℕ;
  set_clk_high = λ s. s + 1;
  set_clk_low = λ s. s;
  set_data_high = λ s. s;
  set_data_low = λ s. s;
  is_data_high = driven;
  set_data_output = λ s. s;
  set_data_input = λ s. s;
  clock_cycle = λ s. s + 1;
  set_reset = λ high s. s;
}

abbrev line : Line pins
line = record {
  clock = λ s. s;
  level = driven;
  clock-set_clk_high = λ s. refl;
  clock-set_clk_low = λ s. refl;
  clock-clock_cycle = λ s. refl;
  clock-set_data_high = λ s. refl;
  clock-set_data_low = λ s. refl;
  clock-set_data_output = λ s. refl;
  clock-set_data_input = λ s. refl;
  is_data_high-level = λ s. refl;
}

drives : DrivesAfter pins line 1 0 word
unfolding levels to_bits count_ones
drives = (refl, record { ack = refl; word = refl; odd = refl })

-- All that is written comes in one read.
abbrev whole : List ℕ → List (List ℕ)
whole [] = []
whole (b ∷ bs) = (b ∷ bs) ∷ []

joined-whole : (bytes : List ℕ) → joined (whole bytes) ≡ bytes
joined-whole [] = refl
joined-whole (b ∷ bs) = append-nil (b ∷ bs)

whole_full : (bytes : List ℕ) → All (λ c. 1 ≤ length c) (whole bytes)
whole_full [] = tt
whole_full (b ∷ bs) = (omega arith, tt)

abbrev network : Network
network = record { cut = whole; joined-cut = joined-whole; cut-full = whole_full }

abbrev waiting : Session (swd_transport pins)
waiting = record {
  dap = esp32_dap_proxy.Dap.State.new (swd_transport pins) (esp32_dap_proxy.Swd.new pins 0);
  deframer = esp32_dap_proxy.Frame.new 1024;
  resp = replicate 1024 0;
  sent = [];
}

waiting-IsReady : IsReady (swd_transport pins) network waiting
waiting-IsReady = record {
  idle = record { full = length-replicate {A = ℕ} 1024 0; idle = refl };
  low = omega arith;
  size = length-replicate {A = ℕ} 1024 0;
  read = refl;
}

abbrev linked : DapLink (probe_net (swd_transport pins) network)
linked = record {
  world = waiting;
  stream = some waiting;
  requests = 0;
  retries = 0;
  errors = 0;
  last_error = none;
}

abbrev device : Device (probe_net (swd_transport pins) network)
device = record { bridge = record { link = linked; pending = none }; counters = zeroed }

-- The client's transfers: a command out, and reads of 24 and of 1000 bytes.
abbrev out_transfer : Submit
out_transfer = record {
  seqnum = 9;
  devid = 0x10001;
  direction = 0;
  ep = 1;
  flags = 0;
  transfer_len = 4;
  start_frame = 0;
  packets = 0;
  interval = 4;
  setup = replicate 8 0;
  payload = read_request 0;
}

abbrev in_transfer : (seqnum limit : ℕ) → Submit
in_transfer seqnum limit = record out_transfer {
  seqnum = seqnum;
  direction = 1;
  flags = 0x200;
  transfer_len = limit;
  payload = [];
}

abbrev in_transfers : List Submit
in_transfers = in_transfer 10 24 ∷ in_transfer 11 1000 ∷ []

out_transfer-IsOut : IsOut out_transfer
out_transfer-IsOut = record {
  well_formed = record {
    seqnum_u32 = omega arith;
    direction_u32 = omega arith;
    ep_u32 = omega arith;
    transfer_len_u32 = omega arith;
    setup_len = refl;
    payload_len = refl;
  };
  bulk = ground arith;
  direction = refl;
}

in_transfer-IsIn : (seqnum limit : ℕ) → IsU32 seqnum → IsU32 limit → IsIn (in_transfer seqnum limit)
in_transfer-IsIn seqnum limit q l = record {
  well_formed = record {
    seqnum_u32 = q;
    direction_u32 = omega arith;
    ep_u32 = omega arith;
    transfer_len_u32 = l;
    setup_len = refl;
    payload_len = refl;
  };
  bulk = ground arith;
  direction = refl;
}

in_transfers-IsIn : All IsIn in_transfers
in_transfers-IsIn = (
  in_transfer-IsIn 10 24 (omega arith) (omega arith),
  (in_transfer-IsIn 11 1000 (omega arith) (omega arith), tt),
)

urb_loop-read_example :
    Brings
      (probe_net (swd_transport pins) network)
      tcp
      delivers
      out_transfer
      in_transfers
      []
      device
      (0x05 ∷ 1 ∷ 1 ∷ u32_to_le_bytes word)
urb_loop-read_example =
    urb_loop-read pins line network tcp delivers 0 1 word out_transfer in_transfers [] device
      waiting (omega arith) (omega arith) (omega arith) drives refl waiting-IsReady refl
      out_transfer-IsOut in_transfers-IsIn (omega arith)
