-- ===== src/Dap/Tests.antt =====
-- Runs of cmd/dap.rs over a transport whose state counts the WAIT answers still to come to reads of
-- the debug port; everything else succeeds at once.
use esp32_dap_proxy.Prelude.{
  ℕ, ◌+◌, ◌*◌, ◌-◌, ◌/◌, ◌≤◌, ◌≡◌, ◌↔◌, min, refl, true, false, none, some, List, [], ◌∷◌, ◌++◌,
  Bool, ok, err, arith, if◌then◌else◌, ◌==◌, length, drop, replicate, length-replicate,
}
use esp32_dap_proxy.Prelude.Bytes.{u16_from_le_bytes, u16_to_le_bytes}
use esp32_dap_proxy.Transport.{Transport, wait}
use esp32_dap_proxy.Dap.State.{Dap, new, st_ok}
use esp32_dap_proxy.Dap.Exec.{exec_transfer, retrying, exec_transfer-retrying}
use esp32_dap_proxy.Dap.Loop.{perform}
use esp32_dap_proxy.Dap.Transfer.{dap_transfer, parse, dap_transfer-perform}
use esp32_dap_proxy.Dap.Block.{dap_transfer_block, parse_block, dap_transfer_block-perform}
use esp32_dap_proxy.Dap.Report.{dap_transfer_report}
use esp32_dap_proxy.Dap.Simple.{dap_connect, power_up}
use esp32_dap_proxy.Dap.Connect.{PoweredWithin, dap_connect_iff}
use esp32_dap_proxy.Dap.Handle.{handle}
use esp32_dap_proxy.Dap.Handle.Commands.{Answered}
use esp32_dap_proxy.Dap.Handle.Total.{handle-Answered}

abbrev target : Transport
target = record {
  State = ℕ;
  init = λ s. (ok tt, s);
  reset_state = λ s. s;
  swj_sequence = λ count bytes s. (ok tt, s);
  swj_pins = λ out sel wait_ms s. (ok out, s);
  read_dp = λ a s. if s == 0 then (ok 0xF0000040, s) else (err wait, s - 1);
  write_dp = λ a v s. (ok tt, s);
  read_ap = λ select a s. (ok 0x23000052, s);
  write_ap = λ select a v s. (ok tt, s);
}

abbrev probe : Dap target
probe = new target 2

-- Reads of CTRL/STAT and of an AP register, with a write of SELECT between them.
abbrev body : List ℕ
body = 0x06 ∷ 0x08 ∷ 0x10 ∷ 0x00 ∷ 0x00 ∷ 0x01 ∷ 0x0F ∷ []

abbrev buffer : List ℕ
buffer = replicate 12 0

handle-Answered_example :
    Answered target 1024 (handle target probe (0x05 ∷ 0x00 ∷ 3 ∷ body) (replicate 1024 0))
handle-Answered_example =
    handle-Answered target probe (0x05 ∷ 0x00 ∷ 3 ∷ body) (replicate 1024 0) (ground arith)
      (length-replicate {A = ℕ} 1024 0)

dap_transfer-perform_example :
    let r = perform target (parse 3 body).0 (parse 3 body).1 probe in
    dap_transfer target probe (0x05 ∷ 0x00 ∷ 3 ∷ body) (0 ∷ 0 ∷ buffer)
    ≡ some (r.dap, (r.done ∷ r.status ∷ r.out) ++ drop (length r.out) buffer, 2 + length r.out)
dap_transfer-perform_example =
    dap_transfer-perform target probe 0x05 0x00 3 0 0 body buffer (omega arith) (omega arith)

dap_transfer_block-perform_example :
    let count = min (u16_from_le_bytes 2 0) (length buffer / 4) in
    let r = perform target (parse_block 0x06 count []).0 (parse_block 0x06 count []).1 probe in
    dap_transfer_block target probe (0x06 ∷ 0x00 ∷ 2 ∷ 0 ∷ 0x06 ∷ []) (0 ∷ 0 ∷ 0 ∷ buffer)
    ≡ some (
      r.dap,
      (u16_to_le_bytes r.done ++ (r.status ∷ r.out)) ++ drop (length r.out) buffer,
      3 + length r.out,
    )
dap_transfer_block-perform_example =
    dap_transfer_block-perform target probe 0x06 0x00 2 0 0x06 0 0 0 [] buffer (omega arith)
      (omega arith) refl (omega arith)

-- Two WAIT answers, and then the word.
exec_transfer-retrying_example :
    exec_transfer target false true 4 none probe
    ≡ some (retrying target (min probe.wait_retry 128) false true 4 none probe)
exec_transfer-retrying_example = exec_transfer-retrying target false true 4 none probe

dap_transfer_report_example :
    (d' : Dap target) × (done : ℕ) × (status : ℕ) × (words : List ℕ) × (n : ℕ) × (dap_transfer
        target probe
        (0x05 ∷ 0x00 ∷ 3 ∷ body)
        (0 ∷ 0 ∷ buffer)
      ≡ some (d', done ∷ status ∷ words, n))
    × (done ≤ 3)
    × (n ≤ 2 + 4 * done)
    × ((status ≡ st_ok) ↔ (done ≡ 3))
dap_transfer_report_example =
    dap_transfer_report target probe 0x05 0x00 3 0 0 body buffer (omega arith) (omega arith)

dap_connect_iff_example :
    (b : Bool) × (d' : Dap target) × (dap_connect target probe (0 ∷ [])
      ≡ some (d', (if b then 0x01 else 0x00) ∷ [], 1))
    × ((b ≡ true) ↔ PoweredWithin target 200 (power_up target probe).transport)
dap_connect_iff_example = dap_connect_iff target probe 0 []
