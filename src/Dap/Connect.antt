-- ===== src/Dap/Connect.antt =====
-- The polling of `dap_connect` in cmd/dap.rs.
use esp32_dap_proxy.Prelude.{
  ℕ, zero, suc, ◌<◌, ◌≡◌, refl, ◌↔◌, Bool, true, false, some, List, ◌∷◌, Result, ok, err, arith,
  if◌then◌else◌, Bool-cases, inl, inr,
}
use esp32_dap_proxy.Transport.{Transport, TransportError}
use esp32_dap_proxy.Dap.State.{Dap, dp_ctrl_stat}
use esp32_dap_proxy.Dap.Simple.{is_powered, decide_poll, poll, power_up, dap_connect}

module _ (t : Transport) where
  open t use {State}

  -- The transport after `k` reads of CTRL/STAT, and whether the next one brings both
  -- acknowledgements of power.
  unfoldable pub after_reads : ℕ → State → State
  after_reads zero s = s
  after_reads (suc k) s = after_reads k (t.read_dp dp_ctrl_stat s).1

  abbrev pub acknowledges : Result ℕ TransportError → Bool
  acknowledges (ok stat) = is_powered stat
  acknowledges (err e) = false

  abbrev pub PoweredWithin : ℕ → State → Type 0
  PoweredWithin n s =
      (k : ℕ) × (k < n) × (acknowledges (t.read_dp dp_ctrl_stat (after_reads k s)).0 ≡ true)

  decide_poll-if :
      (r : Result ℕ TransportError) (d : Dap t) (next : Bool × Dap t)
      → decide_poll t r d next ≡ (if acknowledges r then (true, d) else next)
  decide_poll-if (ok stat) d next = refl
  decide_poll-if (err e) d next = refl

  -- One poll more.
  poll_step :
      (n : ℕ) (d : Dap t)
      → let (r, s) = t.read_dp dp_ctrl_stat d.transport in
        let d' = record d { transport = s } in
        poll t (suc n) d ≡ (if acknowledges r then (true, d') else poll t n d')
  unfolding poll
  poll_step n d = decide_poll-if (t.read_dp dp_ctrl_stat d.transport).0 _ _

  poll→PoweredWithin : (n : ℕ) (d : Dap t) → (poll t n d).0 ≡ true → PoweredWithin n d.transport
  unfolding after_reads
  poll→PoweredWithin zero d e = absurd (unfold poll in cc)
  poll→PoweredWithin (suc n) d e =
      let r = t.read_dp dp_ctrl_stat d.transport in
      elim (Bool-cases (acknowledges r.0)) [
        | inl yes_now ↦ (0, omega arith, yes_now)
        | inr not_yet ↦
            let later = rw (poll_step n d, not_yet) at e in
            let (k, lt, acked) = poll→PoweredWithin n (record d { transport = r.1 }) later in
            (suc k, omega arith, acked)
      ]

  PoweredWithin→poll : (n : ℕ) (d : Dap t) → PoweredWithin n d.transport → (poll t n d).0 ≡ true
  unfolding after_reads
  PoweredWithin→poll zero d (k, lt, acked) = absurd (omega arith)
  PoweredWithin→poll (suc n) d (zero, lt, acked) = rw (poll_step n d, acked)
  PoweredWithin→poll (suc n) d (suc k, lt, acked) =
      let r = t.read_dp dp_ctrl_stat d.transport in
      elim (Bool-cases (acknowledges r.0)) [
        | inl yes_now ↦ rw (poll_step n d, yes_now)
        | inr not_yet ↦
            rw (poll_step n d, not_yet)
              (PoweredWithin→poll n (record d { transport = r.1 }) (k, omega arith, acked))
      ]

  -- DAP_Connect answers one byte: 1 exactly when one of the first 200 reads of CTRL/STAT after the
  -- request for power brings both acknowledgements, and 0 otherwise.
  pub dap_connect_iff :
      (d : Dap t) (x : ℕ) (rest : List ℕ)
      → (b : Bool) × (d' : Dap t) × (dap_connect t d (x ∷ rest)
          ≡ some (d', (if b then 0x01 else 0x00) ∷ rest, 1))
        × ((b ≡ true) ↔ PoweredWithin 200 (power_up t d).transport)
  unfolding dap_connect
  dap_connect_iff d x rest =
      let d₀ = power_up t d in
      (
        (poll t 200 d₀).0,
        (poll t 200 d₀).1,
        refl,
        (poll→PoweredWithin 200 d₀, PoweredWithin→poll 200 d₀),
      )
