-- ===== src/Dap/Keeps/Access.antt =====
-- The accesses of cmd/dap.rs and the loops over them keep what the transport keeps, and put bytes
-- into the response.
use esp32_dap_proxy.Prelude.{
  ℕ, zero, suc, ◌+◌, ◌%◌, ◌<◌, Bool, true, false, Option, none, some, List, ok, err, arith, ltb,
  min, length,
}
use mathlib.Core.Option
use esp32_dap_proxy.Prelude.Bytes.{IsByte, All, u32_to_le_bytes}
use esp32_dap_proxy.Transport.{Transport, wait, fault, unknown, parity, io, Outcome}
use esp32_dap_proxy.Dap.State.{Dap, st_wait}
use esp32_dap_proxy.Dap.Exec.{
  Executed, map_some, map_none, attempt, log_xfer_err, status_of, settle, retrying, exec_transfer,
  exec_transfer-retrying,
}
use esp32_dap_proxy.Dap.Loop.{
  Loop, Step, go_on, stop, after_exec, access, next_round, rounds, word_at,
}
use esp32_dap_proxy.Dap.Keeps.{Keeps, Holds, bind-Holds, if-Holds, any-Holds, copy_at-Holds}

pub u32_to_le_bytes-IsByte : (v : ℕ) → All IsByte (u32_to_le_bytes v)
u32_to_le_bytes-IsByte v = ground arith

module _ (t : Transport) (P : t.State → Type 0) where
  map_some-Keeps : (r : Outcome t.State ℕ) → P r.1 → P (map_some t r).1
  map_some-Keeps (ok v, s) h = h
  map_some-Keeps (err e, s) h = h

  map_none-Keeps : (r : Outcome t.State (Unit {0})) → P r.1 → P (map_none t r).1
  map_none-Keeps (ok v, s) h = h
  map_none-Keeps (err e, s) h = h

  attempt-Keeps :
      Keeps t P
      → (apndp rnw : Bool) (a : ℕ) (wdata : Option ℕ) (s : t.State) → P s
      → P (attempt t apndp rnw a wdata s).1
  unfolding attempt
  attempt-Keeps kept false true a wdata s h =
      map_some-Keeps (t.read_dp a s) (kept.after_read_dp a s h)
  attempt-Keeps kept false false a wdata s h =
      map_none-Keeps (t.write_dp a (Option.get_or wdata 0) s) (kept.after_write_dp a _ s h)
  attempt-Keeps kept true true a wdata s h =
      map_some-Keeps (t.read_ap 0 a s) (kept.after_read_ap 0 a s h)
  attempt-Keeps kept true false a wdata s h =
      map_none-Keeps (t.write_ap 0 a (Option.get_or wdata 0) s) (kept.after_write_ap 0 a _ s h)

  abbrev pub KeptDap : Dap t → Type 0
  KeptDap d = P d.transport

  log_xfer_err-Keeps : (d : Dap t) → P d.transport → P (log_xfer_err t d).transport
  unfolding log_xfer_err
  log_xfer_err-Keeps d h = if-Holds KeptDap (ltb d.err_logs 8) _ _ h h

  abbrev pub KeptExec : Executed t → Type 0
  KeptExec (ok v, d) = P d.transport
  KeptExec (err s, d) = IsByte s × P d.transport

  settle-Keeps :
      (o : Outcome t.State (Option ℕ)) (d : Dap t) (next : Dap t → Executed t)
      → P o.1
      → KeptExec (next (record d { transport = o.1 }))
      → KeptExec (settle t o d next)
  unfolding status_of
  settle-Keeps (ok v, s) d next h k = h
  settle-Keeps (err wait, s) d next h k = k
  settle-Keeps (err fault, s) d next h k = (omega arith, h)
  settle-Keeps (err parity, s) d next h k = (omega arith, log_xfer_err-Keeps _ h)
  settle-Keeps (err (unknown ack), s) d next h k = (omega arith, log_xfer_err-Keeps _ h)
  settle-Keeps (err io, s) d next h k = (omega arith, log_xfer_err-Keeps _ h)

  retrying-Keeps :
      Keeps t P
      → (b : ℕ) (apndp rnw : Bool) (a : ℕ) (wdata : Option ℕ) (d : Dap t) → P d.transport
      → KeptExec (retrying t b apndp rnw a wdata d)
  unfolding retrying
  retrying-Keeps kept zero apndp rnw a wdata d h =
      let after = attempt-Keeps kept apndp rnw a wdata d.transport h in
      settle-Keeps _ d (λ d'. (err st_wait, d')) after (omega arith, after)
  retrying-Keeps kept (suc b) apndp rnw a wdata d h =
      let after = attempt-Keeps kept apndp rnw a wdata d.transport h in
      settle-Keeps _ d (λ d'. retrying t b apndp rnw a wdata d') after
        (retrying-Keeps kept b apndp rnw a wdata _ after)

  pub exec_transfer-Keeps :
      Keeps t P
      → (apndp rnw : Bool) (a : ℕ) (wdata : Option ℕ) (d : Dap t) → P d.transport
      → Holds KeptExec (exec_transfer t apndp rnw a wdata d)
  exec_transfer-Keeps kept apndp rnw a wdata d h =
      rw (exec_transfer-retrying t apndp rnw a wdata d)
        (retrying-Keeps kept (min d.wait_retry 128) apndp rnw a wdata d h)

module _ (t : Transport) (P : t.State → Type 0) (modulus : ℕ) where
  -- The state of a loop, whose counter is a number of the width that `modulus` says.
  pub record KeptLoop (l : Loop t) : Type 0 where
    pub transport : P l.dap.transport
    pub bytes : All IsByte l.resp
    pub counts : l.done < modulus

  abbrev pub KeptStep : Step t → Type 0
  KeptStep (go_on l) = KeptLoop l
  KeptStep (stop s l) = IsByte s × KeptLoop l

  abbrev pub KeptEnd : ℕ × Loop t → Type 0
  KeptEnd (s, l) = IsByte s × KeptLoop l

  module _ (kept : Keeps t P) (small : (n : ℕ) → n % modulus < modulus) where
    after_exec-Keeps :
        (l : Loop t) (r : Executed t)
        → KeptLoop l
        → KeptExec t P r
        → Holds KeptStep (after_exec t modulus l r)
    after_exec-Keeps l (ok (some v), d) h k =
        bind-Holds (All IsByte) KeptStep _ _
          (copy_at-Holds IsByte l.rpos _ l.resp (u32_to_le_bytes-IsByte v) h.bytes)
          (λ resp b. record { transport = k; bytes = b; counts = small _ })
    after_exec-Keeps l (ok none, d) h k = record {
      transport = k;
      bytes = h.bytes;
      counts = small _;
    }
    after_exec-Keeps l (err s, d) h k =
        (k.0, record { transport = k.1; bytes = h.bytes; counts = h.counts })

    pub access-Keeps :
        (apndp rnw : Bool) (a : ℕ) (req : List ℕ) (l : Loop t)
        → KeptLoop l
        → Holds KeptStep (access t modulus apndp rnw a req l)
    unfolding access
    access-Keeps apndp true a req l h =
        bind-Holds (KeptExec t P) KeptStep _ _
          (exec_transfer-Keeps t P kept apndp true a none l.dap h.transport)
          (λ r k. after_exec-Keeps l r h k)
    access-Keeps apndp false a req l h =
        let moved : KeptLoop (record l { pos = l.pos + 4 }) = record {
          transport = h.transport;
          bytes = h.bytes;
          counts = h.counts;
        } in
        if-Holds (Holds KeptStep) (ltb (length req) (l.pos + 4)) _ _ (omega arith, h)
          (bind-Holds (λ v. Unit {0}) KeptStep _ _ (any-Holds (word_at req l.pos))
            (λ v u.
              bind-Holds (KeptExec t P) KeptStep _ _
                (exec_transfer-Keeps t P kept apndp false a (some v) l.dap h.transport)
                (λ r k. after_exec-Keeps _ r moved k)))

    next_round-Keeps :
        (again : Loop t → Option (ℕ × Loop t)) (x : Step t)
        → KeptStep x
        → ((l : Loop t) → KeptLoop l → Holds KeptEnd (again l))
        → Holds KeptEnd (next_round t again x)
    next_round-Keeps again (go_on l) h k = k l h
    next_round-Keeps again (stop s l) h k = h

    pub rounds-Keeps :
        (step : Loop t → Option (Step t)) (n : ℕ) (l : Loop t)
        → ((l' : Loop t) → KeptLoop l' → Holds KeptStep (step l'))
        → KeptLoop l
        → Holds KeptEnd (rounds t step n l)
    unfolding rounds
    rounds-Keeps step zero l each h = (omega arith, h)
    rounds-Keeps step (suc n) l each h =
        bind-Holds KeptStep KeptEnd _ _ (each l h)
          (λ x k. next_round-Keeps _ x k (λ l' h'. rounds-Keeps step n l' each h'))
