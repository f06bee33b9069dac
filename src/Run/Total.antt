-- ===== src/Run/Total.antt =====
-- `run` of channel/mod.rs on whatever its clients send.
use esp32_dap_proxy.Prelude.{
  ℕ, suc, ◌≡◌, refl, Bool, true, false, List, [], ◌∷◌, arith, length, length-replicate,
}
use esp32_dap_proxy.Prelude.Bytes.{All, IsByte}
use esp32_dap_proxy.Tcp.Faults.{AreBytes}
use esp32_dap_proxy.Transport.{Transport}
use esp32_dap_proxy.Dap.Serve.{Ending, ended, waits, panicked, out_of_fuel, serve}
use esp32_dap_proxy.Dap.Serve.Total.{Settles, serve-Settles}
use esp32_dap_proxy.Run.{
  Probe, Round, no_client, client, Running, accepting, serving, stopped, opened, after_serve, run,
}

module _ (t : Transport) where
  abbrev pub IsRound : Round t → Type 0
  IsRound no_client = Unit
  IsRound (client es sending) = All AreBytes es

  abbrev is_running : Running t → Bool
  is_running (accepting p) = true
  is_running (serving s) = true
  is_running (stopped e) = false

  after_serve-running :
      (e : Ending t) (p : Probe t) (next : Probe t → Running t)
      → Settles t e
      → ((p' : Probe t) → All IsByte p'.deframer.buf → is_running (next p') ≡ true)
      → is_running (after_serve t e p next) ≡ true
  after_serve-running (ended s es) p next h k = k _ h.1
  after_serve-running (waits s) p next h k = refl
  after_serve-running panicked p next h k = h.0
  after_serve-running out_of_fuel p next h k = h.0

  -- Whatever bytes the clients send in any number of sessions, whatever the target answers, and
  -- whatever becomes of the writes, the loop of the probe goes on: it waits for a client or for the
  -- bytes of one, and no session panics. The deframer's buffer holds bytes.
  run-is_running :
      (rs : List (Round t)) (p : Probe t)
      → All IsByte p.deframer.buf
      → All IsRound rs
      → is_running (run t rs p) ≡ true
  unfolding run
  run-is_running [] p h k = refl
  run-is_running (no_client ∷ rs) p h k = run-is_running rs p h k.1
  run-is_running (client es sending ∷ rs) p h k =
      after_serve-running (serve t (suc (length es)) sending 0 (opened t p) es) p _
        (serve-Settles t (suc (length es)) sending 0 (opened t p) es h
          (length-replicate {A = ℕ} 1024 0) k.0 (omega arith))
        (λ p' h'. run-is_running rs p' h' k.1)
