-- ===== src/Swd/Typed.antt =====
-- The words that transport/swd.rs returns, over any pins.
use esp32_dap_proxy.Prelude.{ℕ, ◌≡◌, subst, Bool, true, false, Option, none, arith, Result, ok, err}
use mathlib.Core.Option
use esp32_dap_proxy.Prelude.Bytes.{IsU32}
use esp32_dap_proxy.Transport.{TransportError, Outcome, IsTyped}
use esp32_dap_proxy.Io.{Io}
use esp32_dap_proxy.Io.Words.{read_u32-samples}
use esp32_dap_proxy.Swd.{
  Swd, read_phase, write_phase, give_up, after_ack, transfer, read_dp, read_ap, then_rdbuff,
  swd_transport,
}

module _ (io : Io) where
  -- Words that fit 32 bits.
  abbrev FitsU32 : Result ℕ TransportError → Type 0
  FitsU32 (ok v) = IsU32 v
  FitsU32 (err e) = Unit

  after_ack-FitsU32 :
      (rnw : Bool) (value : Option ℕ) (ack : ℕ) (s : Swd io)
      → IsU32 (Option.get_or value 0)
      → FitsU32 (after_ack io rnw value ack s).0
  unfolding after_ack read_phase write_phase give_up
  after_ack-FitsU32 rnw value ack s h = ground (arith, (read_u32-samples io 32 s.pins).1)

  transfer-FitsU32 :
      (apndp rnw : Bool) (addr : ℕ) (value : Option ℕ) (s : Swd io)
      → IsU32 (Option.get_or value 0)
      → FitsU32 (transfer io apndp rnw addr value s).0
  unfolding transfer
  transfer-FitsU32 apndp rnw addr value s h = after_ack-FitsU32 rnw value _ _ h

  read_dp-lt : (addr : ℕ) (s : Swd io) {v : ℕ} → (read_dp io addr s).0 ≡ ok v → IsU32 v
  unfolding read_dp
  read_dp-lt addr s e = subst FitsU32 e (transfer-FitsU32 false true addr none s (omega arith))

  then_rdbuff-FitsU32 : (r : Outcome (Swd io) ℕ) → FitsU32 (then_rdbuff io r).0
  unfolding read_dp
  then_rdbuff-FitsU32 (ok v, s) = transfer-FitsU32 _ _ _ _ s (omega arith)
  then_rdbuff-FitsU32 (err e, s) = tt

  read_ap-lt :
      (select addr : ℕ) (s : Swd io) {v : ℕ} → (read_ap io select addr s).0 ≡ ok v → IsU32 v
  unfolding read_ap
  read_ap-lt select addr s e = subst FitsU32 e (then_rdbuff-FitsU32 _)

  -- The words that the SWD transport returns for reads of registers fit 32 bits, as their type says.
  pub swd-IsTyped : IsTyped (swd_transport io)
  swd-IsTyped = record {
    read_dp_u32 = λ a s. read_dp-lt a s;
    read_ap_u32 = λ select a s. read_ap-lt select a s;
  }
