-- ===== src/Remote/Read.antt =====
-- A read of a register by cmd/dap.rs over transport/swd.rs, from a target that makes the probe wait.
use esp32_dap_proxy.Prelude.{
  ℕ, zero, suc, ◌^◌, ◌≤◌, ◌<◌, ◌≡◌, refl, sym, ◌∙◌, subst, true, false, none, some, ok, err, arith,
}
use esp32_dap_proxy.Transport.{Transport, wait, fault, unknown, parity, io, Outcome}
use esp32_dap_proxy.Io.{Io}
use esp32_dap_proxy.Io.Line.{Line}
use esp32_dap_proxy.Swd.{read_dp, swd_transport}
use esp32_dap_proxy.Swd.Transfer.{read_dp-word}
use esp32_dap_proxy.Swd.Waits.{DrivesAfter, read_dp-wait}
use esp32_dap_proxy.Dap.State.{Dap}
use esp32_dap_proxy.Dap.Exec.{Executed, map_some, attempt, settle, retrying}

module _ (t : Transport) where
  settle_ok :
      (r : Outcome t.State ℕ) (d : Dap t) (next : Dap t → Executed t) {v : ℕ}
      → r.0 ≡ ok v
      → settle t (map_some t r) d next ≡ (ok (some v), record d { transport = r.1 })
  settle_ok (ok u, s) d next {v} e = cc
  settle_ok (err e', s) d next {v} e = absurd cc

  settle_wait :
      (r : Outcome t.State ℕ) (d : Dap t) (next : Dap t → Executed t)
      → r.0 ≡ err wait
      → settle t (map_some t r) d next ≡ next (record d { transport = r.1 })
  settle_wait (ok u, s) d next e = absurd cc
  settle_wait (err wait, s) d next e = refl
  settle_wait (err fault, s) d next e = absurd cc
  settle_wait (err parity, s) d next e = absurd cc
  settle_wait (err (unknown a), s) d next e = absurd cc
  settle_wait (err io, s) d next e = absurd cc

  -- A read that succeeds at the first attempt, with any retries left.
  retrying_ok :
      (b a : ℕ) (d : Dap t) {v : ℕ}
      → (t.read_dp a d.transport).0 ≡ ok v
      → retrying t b false true a none d
        ≡ (ok (some v), record d { transport = (t.read_dp a d.transport).1 })
  unfolding retrying attempt
  retrying_ok zero a d e = settle_ok (t.read_dp a d.transport) d _ e
  retrying_ok (suc b) a d e = settle_ok (t.read_dp a d.transport) d _ e

  retrying_wait :
      (b a : ℕ) (d : Dap t)
      → (t.read_dp a d.transport).0 ≡ err wait
      → retrying t (suc b) false true a none d
        ≡ retrying t b false true a none (record d { transport = (t.read_dp a d.transport).1 })
  unfolding retrying attempt
  retrying_wait b a d e = settle_wait (t.read_dp a d.transport) d _ e

module _ (pins : Io) (line : Line pins) where
  open line use {clock}

  -- The word comes through, as long as there are no more waits than retries.
  pub read-waits :
      (k b a v : ℕ) (d : Dap (swd_transport pins))
      → k ≤ b
      → v < 2 ^ 32
      → DrivesAfter pins line k (clock d.transport.pins) v
      → (d' : Dap (swd_transport pins)) × (retrying (swd_transport pins) b false true a none d
          ≡ (ok (some v), d'))
  read-waits zero b a v d h fits drives =
      let (e, ticks) =
        read_dp-word pins line a v d.transport fits drives.ack drives.word drives.odd in
      (
        record d { transport = (read_dp pins a d.transport).1 },
        retrying_ok (swd_transport pins) b a d e,
      )
  read-waits (suc k) zero a v d h fits drives = absurd (omega arith)
  read-waits (suc k) (suc b) a v d h fits (waits, drives) =
      let (e, ticks) = read_dp-wait pins line a d.transport waits in
      let s' = (read_dp pins a d.transport).1 in
      let (d', later) =
        read-waits k b a v (record d { transport = s' }) (omega arith) fits
          (subst (λ c. DrivesAfter pins line k c v) (sym ticks) drives) in
      (d', retrying_wait (swd_transport pins) b a d e ∙ later)
