-- ===== src/Dap/Exec.antt =====
-- `exec_transfer` of cmd/dap.rs: one access to the target, with a bounded number of retries on WAIT.
use esp32_dap_proxy.Prelude.{
  ℕ, zero, suc, ◌+◌, ◌%◌, ◌^◌, ◌≤◌, min, ◌≡◌, refl, Bool, true, false, Option, none, some, Result,
  ok, err, arith, ltb, ◌==◌, if◌then◌else◌,
}
use mathlib.Core.Option
use esp32_dap_proxy.Transport.{Transport, TransportError, wait, fault, unknown, parity, io, Outcome}
use esp32_dap_proxy.Dap.State.{Dap, st_wait, st_fault, st_proto}

module _ (t : Transport) where
  open t use {State, read_dp, write_dp, read_ap, write_ap}

  -- `.map(Some)` and `.map(|_| None)`
  abbrev pub map_some : Outcome State ℕ → Outcome State (Option ℕ)
  map_some (ok v, s) = (ok (some v), s)
  map_some (err e, s) = (err e, s)

  abbrev pub map_none : Outcome State (Unit {0}) → Outcome State (Option ℕ)
  map_none (ok _, s) = (ok none, s)
  map_none (err e, s) = (err e, s)

  -- The match on `(apndp, rnw)`.
  unfoldable pub attempt : Bool → Bool → ℕ → Option ℕ → State → Outcome State (Option ℕ)
  attempt false true a wdata s = map_some (read_dp a s)
  attempt false false a wdata s = map_none (write_dp a (Option.get_or wdata 0) s)
  attempt true true a wdata s = map_some (read_ap 0 a s)
  attempt true false a wdata s = map_none (write_ap 0 a (Option.get_or wdata 0) s)

  -- The count that `log_xfer_err` keeps.
  unfoldable pub log_xfer_err : Dap t → Dap t
  log_xfer_err d = if ltb d.err_logs 8 then record d { err_logs = d.err_logs + 1 } else d

  -- The status that a transport error becomes, and the state with the error logged.
  unfoldable pub status_of : TransportError → Dap t → ℕ × Dap t
  status_of wait d = (st_wait, d)
  status_of fault d = (st_fault, d)
  status_of parity d = (st_proto, log_xfer_err d)
  status_of (unknown ack) d = (st_proto, log_xfer_err d)
  status_of io d = (st_proto, log_xfer_err d)

  abbrev pub Executed : Type 0
  Executed = Result (Option ℕ) ℕ × Dap t

  -- After an attempt: the result, or the status and whether the loop goes round again.
  abbrev pub may_retry : ℕ → Dap t → ℕ → Bool
  may_retry status d tries =
      if status == st_wait then ltb (tries % 2 ^ 16) (min d.wait_retry 128) else false

  abbrev pub decide_retry : ℕ × Dap t → ℕ → Option Executed → Option Executed
  decide_retry (status, d) tries next =
      if may_retry status d tries then next else some (err status, d)

  abbrev pub after_attempt :
      Outcome State (Option ℕ) → Dap t → ℕ → (Dap t → Option Executed) → Option Executed
  after_attempt (ok v, s) d tries next = some (ok v, record d { transport = s })
  after_attempt (err e, s) d tries next =
      let (status, d') = status_of e (record d { transport = s }) in
      decide_retry (status, d') tries (next d')

  -- `loop`, on fuel; `none` means that the fuel ran out.
  unfoldable pub exec_loop : ℕ → Bool → Bool → ℕ → Option ℕ → Dap t → ℕ → Option Executed
  exec_loop zero apndp rnw a wdata d tries = none
  exec_loop (suc fuel) apndp rnw a wdata d tries =
      after_attempt (attempt apndp rnw a wdata d.transport) d tries
        (λ d'. exec_loop fuel apndp rnw a wdata d' ((tries + 1) % 2 ^ 32))

  -- At most 129 attempts are made.
  unfoldable pub exec_transfer : Bool → Bool → ℕ → Option ℕ → Dap t → Option Executed
  exec_transfer apndp rnw a wdata d = exec_loop 129 apndp rnw a wdata d 0

  -- The specification: attempts until one does not answer WAIT, with a budget of retries. The last
  -- argument is what follows a WAIT.
  abbrev pub settle : Outcome State (Option ℕ) → Dap t → (Dap t → Executed) → Executed
  settle (ok v, s) d next = (ok v, record d { transport = s })
  settle (err wait, s) d next = next (record d { transport = s })
  settle (err e, s) d next =
      let (status, d') = status_of e (record d { transport = s }) in (err status, d')

  unfoldable pub retrying : ℕ → Bool → Bool → ℕ → Option ℕ → Dap t → Executed
  retrying zero apndp rnw a wdata d =
      settle (attempt apndp rnw a wdata d.transport) d (λ d'. (err st_wait, d'))
  retrying (suc b) apndp rnw a wdata d =
      settle (attempt apndp rnw a wdata d.transport) d (λ d'. retrying b apndp rnw a wdata d')

  settled :
      (o : Outcome State (Option ℕ)) (d : Dap t) (tries : ℕ) (next : Dap t → Option Executed)
      (next' : Dap t → Executed)
      → (if ltb (tries % 2 ^ 16) (min d.wait_retry 128)
          then next (record d { transport = o.1 })
          else some (err st_wait, record d { transport = o.1 }))
        ≡ some (next' (record d { transport = o.1 }))
      → after_attempt o d tries next ≡ some (settle o d next')
  unfolding status_of
  settled (ok v, s) d tries next next' h = refl
  settled (err wait, s) d tries next next' h = h
  settled (err fault, s) d tries next next' h = refl
  settled (err parity, s) d tries next next' h = refl
  settled (err (unknown ack), s) d tries next next' h = refl
  settled (err io, s) d tries next next' h = refl

  exec_loop-retrying :
      (b fuel : ℕ) (apndp rnw : Bool) (a : ℕ) (wdata : Option ℕ) (d : Dap t) (tries : ℕ)
      → b ≤ fuel
      → b + tries ≡ min d.wait_retry 128
      → exec_loop (suc fuel) apndp rnw a wdata d tries ≡ some (retrying b apndp rnw a wdata d)
  unfolding exec_loop retrying
  exec_loop-retrying zero fuel apndp rnw a wdata d tries h e =
      let stop : ltb (tries % 2 ^ 16) (min d.wait_retry 128) ≡ false = ground arith in
      settled (attempt apndp rnw a wdata d.transport) d tries _ _ (rw stop)
  exec_loop-retrying (suc b) zero apndp rnw a wdata d tries h e = absurd (omega arith)
  exec_loop-retrying (suc b) (suc fuel) apndp rnw a wdata d tries h e =
      let again : ltb (tries % 2 ^ 16) (min d.wait_retry 128) ≡ true = ground arith in
      let small : (tries + 1) % 2 ^ 32 ≡ tries + 1 = omega arith in
      settled (attempt apndp rnw a wdata d.transport) d tries _ _ (
        rw (again, small)
          (exec_loop-retrying b fuel apndp rnw a wdata
            (record d { transport = (attempt apndp rnw a wdata d.transport).1 }) (tries + 1)
            (omega arith) (omega arith)))

  -- The retry loop always ends, within 129 attempts: it makes the access, and repeats it on WAIT as
  -- often as `wait_retry` allows, 128 times at most; any other answer ends it.
  pub exec_transfer-retrying :
      (apndp rnw : Bool) (a : ℕ) (wdata : Option ℕ) (d : Dap t)
      → exec_transfer apndp rnw a wdata d
        ≡ some (retrying (min d.wait_retry 128) apndp rnw a wdata d)
  unfolding exec_transfer
  exec_transfer-retrying apndp rnw a wdata d =
      exec_loop-retrying (min d.wait_retry 128) 128 apndp rnw a wdata d 0 (omega arith)
        (omega arith)
