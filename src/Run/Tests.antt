-- ===== src/Run/Tests.antt =====
-- Runs of channel/mod.rs: two clients, and reads that make no sense.
use esp32_dap_proxy.Prelude.{
  ℕ, suc, ◌≡◌, refl, true, false, List, [], ◌∷◌, ◌++◌, ok, arith, length-replicate,
}
use esp32_dap_proxy.Frame.{Deframer}
use esp32_dap_proxy.Frame.Wire.{encode, head_bytes}
use esp32_dap_proxy.Frame.Payload.{Idle}
use esp32_dap_proxy.Tcp.Chunks.{joined}
use esp32_dap_proxy.Transport.{Transport}
use esp32_dap_proxy.Dap.Serve.Exchange.{Request, IsRequest}
use esp32_dap_proxy.Run.{Probe, accepting, run}
use esp32_dap_proxy.Run.Sessions.{Visit, visits, all_answers, probe, run-all_answers}

-- A target that counts the reads of its registers.
abbrev target : Transport
target = record {
  State = ℕ;
  init = λ s. (ok tt, s);
  reset_state = λ s. s;
  swj_sequence = λ count bytes s. (ok tt, s);
  swj_pins = λ out sel wait_ms s. (ok out, s);
  read_dp = λ a s. (ok s, suc s);
  write_dp = λ a v s. (ok tt, s);
  read_ap = λ select a s. (ok s, suc s);
  write_ap = λ select a v s. (ok tt, s);
}

-- A transfer of one read of a debug port's register.
abbrev one_read : Request
one_read = record {
  body = 0x05 ∷ 0x00 ∷ 1 ∷ 0x02 ∷ [];
  pieces = (0xDA ∷ 4 ∷ 0 ∷ []) ∷ (0x05 ∷ 0x00 ∷ 1 ∷ 0x02 ∷ []) ∷ [];
}

one_read-encode : joined one_read.pieces ≡ encode one_read.body
unfolding encode head_bytes
one_read-encode = refl

one_read-IsRequest : IsRequest one_read
one_read-IsRequest = record {
  not_empty = omega arith;
  fits = omega arith;
  bytes = ground arith;
  full = ground arith;
  arrives = one_read-encode;
}

abbrev two_visits : List Visit
two_visits =
    record { requests = one_read ∷ one_read ∷ []; fails = true }
    ∷ record { requests = one_read ∷ []; fails = false }
    ∷ []

abbrev start : Probe target
start = probe target 7 (esp32_dap_proxy.Frame.new 1024) []

run-all_answers_example :
    (d' : Deframer) × (run target (visits target two_visits) start
      ≡ accepting (
          probe target
            (all_answers target two_visits 7).0
            d'
            (start.sent ++ (all_answers target two_visits 7).1)))
    × Idle 1024 d'
run-all_answers_example =
    run-all_answers target two_visits start
      ((one_read-IsRequest, (one_read-IsRequest, tt)), ((one_read-IsRequest, tt), tt))
      (record { full = length-replicate {A = ℕ} 1024 0; idle = refl }) (omega arith)
