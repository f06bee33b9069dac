-- ===== src/Usbip/Exchange.antt =====
-- What the client of usbip.rs gets for a session of URBs.
use esp32_dap_proxy.Prelude.{
  ℕ, suc, ◌^◌, ◌≤◌, ◌<◌, ◌≡◌, refl, ap, Option, none, some, List, [], ◌∷◌, ◌++◌, Result, ok, err,
  ◌==◌, arith, length, length-take, Bool-cases, inl, inr,
}
use esp32_dap_proxy.Prelude.Bytes.{All, IsU32}
use esp32_dap_proxy.Link.{LinkError, Net}
use esp32_dap_proxy.Bridge.{DapBridge, take_from, bulk_in, bulk_out}
use esp32_dap_proxy.Metrics.{Counters}
use esp32_dap_proxy.Usbip.Control.Answer.{ep0_control_short, ep0_control_status}
use esp32_dap_proxy.Usbip.Stream.{TcpStream, Delivers}
use esp32_dap_proxy.Usbip.Serve.{
  Device, Answer, out_answer, answer_submit, answer_control, answer_out, answer_in, closed,
  urb_loop,
}
use esp32_dap_proxy.Usbip.Client.{Urb, submit, unlink, wire_of, IsUrb, parse_rets}
use esp32_dap_proxy.Usbip.Parse.{IsRet, encode_rets, parse_rets-encode_rets}
use esp32_dap_proxy.Usbip.Session.{respond, respond_all, conn, urb_loop-encode_rets}

module _ (net : Net) where
  take_from-le :
      (max_len : ℕ) (o : Option (List ℕ)) (b : DapBridge net)
      → length (take_from net max_len o b).0 ≤ max_len
  take_from-le max_len none b = omega arith
  take_from-le max_len (some r) b = ground (arith, length-take max_len r)

  abbrev IsSmall : Answer net → Type 0
  IsSmall r = IsU32 r.0.0 × (length r.0.1 < 2 ^ 32)

  out_answer-IsSmall :
      (len : ℕ) (r : Result (Unit {0}) LinkError × DapBridge net) (c : Counters)
      → IsSmall (out_answer net len r c)
  out_answer-IsSmall len (ok u, b) c = (omega arith, omega arith)
  out_answer-IsSmall len (err e, b) c = (omega arith, omega arith)

  answer_submit-IsSmall :
      (ep direction len : ℕ) (setup payload : List ℕ) (d : Device net)
      → IsU32 len
      → IsSmall (answer_submit net ep direction len setup payload d)
  unfolding answer_submit answer_control answer_out answer_in bulk_in
  answer_submit-IsSmall ep direction len setup payload d h = elim (Bool-cases (ep == 0)) [
    | inl control ↦
        rw control
          (omega (arith, ep0_control_status setup), omega (arith, (ep0_control_short setup).0))
    | inr bulk ↦ elim (Bool-cases (direction == 0)) [
      | inl out ↦
          rw (bulk, out)
            (out_answer-IsSmall (length payload) (bulk_out net payload d.bridge) d.counters)
      | inr not_out ↦ elim (Bool-cases (direction == 1)) [
        | inl inward ↦
            rw (bulk, not_out, inward)
              (omega arith, omega (arith, take_from-le len d.bridge.pending d.bridge))
        | inr other ↦ rw (bulk, not_out, other) (omega arith, omega arith)
      ]
    ]
  ]

  respond-IsRet : (u : Urb) (d : Device net) → IsUrb u → IsRet (respond net u d).0
  respond-IsRet (submit s) d h =
      let small =
        answer_submit-IsSmall s.ep s.direction s.transfer_len s.setup s.payload d
          h.transfer_len_u32 in
      (h.seqnum_u32, small.0, small.1)
  respond-IsRet (unlink seqnum devid target) d h = h

  respond_all-IsRet :
      (us : List Urb) (d : Device net) → All IsUrb us → All IsRet (respond_all net us d).0
  unfolding respond_all
  respond_all-IsRet [] d h = tt
  respond_all-IsRet (u ∷ us) d h =
      (respond-IsRet u d h.0, respond_all-IsRet us (respond net u d).1 h.1)

  length-respond_all :
      (us : List Urb) (d : Device net) → length (respond_all net us d).0 ≡ length us
  unfolding respond_all
  length-respond_all [] d = refl
  length-respond_all (u ∷ us) d = ap suc (length-respond_all us (respond net u d).1)

module _ (net : Net) (tcp : TcpStream) (delivers : Delivers tcp) where
  -- The loop answers a client's URBs in order, each in the state that the one before it left: the
  -- client, which reads as many replies as it sent URBs out of what comes back, reads those answers,
  -- under the URBs' sequence numbers, with nothing left, and the session ends when the client does.
  -- The URBs fit the fields of their headers, and the connection fails no read or write before the
  -- client's end.
  pub urb_loop-respond_all :
      (us : List Urb) (sent : List ℕ) (d : Device net)
      → All IsUrb us
      → let (rets, d') = respond_all net us d in
        (out : List ℕ) × (urb_loop net tcp
            (suc (length us))
            (conn net tcp delivers (wire_of us) sent d)
          ≡ closed (conn net tcp delivers [] (sent ++ out) d'))
        × (parse_rets (length us) out ≡ some (rets, []))
  urb_loop-respond_all us sent d h =
      let rets = (respond_all net us d).0 in
      (
        encode_rets rets,
        urb_loop-encode_rets net tcp delivers us sent d h,
        rw (← length-respond_all net us d)
            (parse_rets-encode_rets rets (respond_all-IsRet net us d h)),
      )
