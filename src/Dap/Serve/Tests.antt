-- ===== src/Dap/Serve/Tests.antt =====
-- A session of `serve` with two requests, the second in two reads.
use esp32_dap_proxy.Prelude.{
  ℕ, ◌≡◌, refl, true, List, [], ◌∷◌, ◌++◌, ok, arith, replicate, length-replicate,
}
use esp32_dap_proxy.Frame.{Deframer}
use esp32_dap_proxy.Frame.Wire.{encode, head_bytes}
use esp32_dap_proxy.Frame.Payload.{Idle}
use esp32_dap_proxy.Tcp.{written}
use esp32_dap_proxy.Tcp.Chunks.{joined}
use esp32_dap_proxy.Transport.{Transport}
use esp32_dap_proxy.Dap.State.{new}
use esp32_dap_proxy.Dap.Serve.{Sending, Session, waits, serve}
use esp32_dap_proxy.Dap.Serve.Exchange.{Request, IsRequest, arrivals, answers, serve-answers}

abbrev target : Transport
target = record {
  State = ℕ;
  init = λ s. (ok tt, s);
  reset_state = λ s. s;
  swj_sequence = λ count bytes s. (ok tt, s);
  swj_pins = λ out sel wait_ms s. (ok out, s);
  read_dp = λ a s. (ok 0x2BA01477, s);
  write_dp = λ a v s. (ok tt, s);
  read_ap = λ select a s. (ok 0x23000052, s);
  write_ap = λ select a v s. (ok tt, s);
}

-- The firmware's version, and a transfer of one read.
abbrev version : Request
version = record { body = 0x00 ∷ 0x04 ∷ []; pieces = (0xDA ∷ 2 ∷ 0 ∷ 0x00 ∷ 0x04 ∷ []) ∷ [] }

abbrev one_read : Request
one_read = record {
  body = 0x05 ∷ 0x00 ∷ 1 ∷ 0x02 ∷ [];
  pieces = (0xDA ∷ 4 ∷ 0 ∷ []) ∷ (0x05 ∷ 0x00 ∷ 1 ∷ 0x02 ∷ []) ∷ [];
}

version-encode : joined version.pieces ≡ encode version.body
unfolding encode head_bytes
version-encode = refl

one_read-encode : joined one_read.pieces ≡ encode one_read.body
unfolding encode head_bytes
one_read-encode = refl

version-IsRequest : IsRequest version
version-IsRequest = record {
  not_empty = omega arith;
  fits = omega arith;
  bytes = ground arith;
  full = ground arith;
  arrives = version-encode;
}

one_read-IsRequest : IsRequest one_read
one_read-IsRequest = record {
  not_empty = omega arith;
  fits = omega arith;
  bytes = ground arith;
  full = ground arith;
  arrives = one_read-encode;
}

abbrev requests : List Request
requests = version ∷ one_read ∷ []

abbrev start : Session target
start = record {
  dap = new target 0;
  deframer = esp32_dap_proxy.Frame.new 1024;
  resp = replicate 1024 0;
  sent = [];
}

abbrev all_written : ℕ → Sending
all_written k = (written, written, true)

serve-answers_example :
    let a = answers target requests start.dap start.resp in
    (d' : Deframer) × (serve target 3 all_written 0 start (arrivals requests)
      ≡ waits (record { dap = a.dap; deframer = d'; resp = a.resp; sent = start.sent ++ a.out }))
    × Idle 1024 d'
serve-answers_example =
    serve-answers target all_written 0 requests start (λ i. refl)
      (version-IsRequest, (one_read-IsRequest, tt))
      (record { full = length-replicate {A = ℕ} 1024 0; idle = refl }) (omega arith)
      (length-replicate {A = ℕ} 1024 0)
