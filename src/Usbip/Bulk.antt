-- ===== src/Usbip/Bulk.antt =====
-- A DAP command over usbip.rs: one bulk OUT transfer, and bulk IN transfers until the response is
-- taken.
use esp32_dap_proxy.Prelude.{
  ℕ, suc, ◌≤◌, ◌≡◌, ◌≢◌, refl, ap, ◌∙◌, false, true, some, List, [], ◌∷◌, ◌++◌, ok, ◌==◌, arith,
  length,
}
use esp32_dap_proxy.Prelude.Bytes.{All}
use esp32_dap_proxy.Link.{Net, DapLink, request}
use esp32_dap_proxy.Bridge.{bulk_in, bulk_ins, bulk_out}
use esp32_dap_proxy.Bridge.Drain.{askers, data_of, total, WithinLimit, bulk_ins-Drains}
use esp32_dap_proxy.Usbip.Stream.{TcpStream, Delivers}
use esp32_dap_proxy.Usbip.Serve.{Device, answer_submit, answer_out, answer_in, closed, urb_loop}
use esp32_dap_proxy.Usbip.Client.{
  Submit, Urb, submit, wire_of, IsSubmit, IsUrb, Ret, submitted, parse_rets,
}
use esp32_dap_proxy.Usbip.Session.{respond, respond_all, conn}
use esp32_dap_proxy.Usbip.Exchange.{urb_loop-respond_all}

-- A transfer on an endpoint other than 0, out and in.
pub record IsOut (s : Submit) : Type 0 where
  pub well_formed : IsSubmit s
  pub bulk : s.ep ≢ 0
  pub direction : s.direction ≡ 0

pub record IsIn (s : Submit) : Type 0 where
  pub well_formed : IsSubmit s
  pub bulk : s.ep ≢ 0
  pub direction : s.direction ≡ 1

abbrev pub limit_of : Submit → ℕ
limit_of s = s.transfer_len

abbrev pub submits : List Submit → List Urb
submits [] = []
submits (s ∷ ss) = submit s ∷ submits ss

-- The replies to transfers that succeed, each with its data.
abbrev pub delivered : List (Submit × List ℕ) → List Ret
delivered [] = []
delivered ((s, piece) ∷ xs) = submitted s.seqnum 0 piece ∷ delivered xs

submits-IsUrb : (ss : List Submit) → All IsIn ss → All IsUrb (submits ss)
submits-IsUrb [] h = tt
submits-IsUrb (s ∷ ss) h = (h.0.well_formed, submits-IsUrb ss h.1)

length-submits : (ss : List Submit) → length (submits ss) ≡ length ss
length-submits [] = refl
length-submits (s ∷ ss) = ap suc (length-submits ss)

module _ (net : Net) where
  respond_all-delivered :
      (ss : List Submit) (d : Device net)
      → All IsIn ss
      → (respond_all net (submits ss) d).0 ≡ delivered (bulk_ins net limit_of ss d.bridge).0
  unfolding respond_all bulk_ins answer_submit answer_in
  respond_all-delivered [] d h = refl
  respond_all-delivered (s ∷ ss) d (q, h) =
      let bulk : (s.ep == 0) ≡ false = ground (arith, q.bulk) in
      let not_out : (s.direction == 0) ≡ false = ground (arith, q.direction) in
      let inward : (s.direction == 1) ≡ true = ground (arith, q.direction) in
      let d' = (answer_in net s.transfer_len d).1 in
      rw (bulk, not_out, inward)
        (ap (λ rs. submitted s.seqnum 0 (bulk_in net s.transfer_len d.bridge).0 ∷ rs)
          (respond_all-delivered ss d' h))

  answer_out-bridge :
      (command : List ℕ) (d : Device net) {response : List ℕ} {l : DapLink net}
      → request net command d.bridge.link ≡ (ok response, l)
      → ((answer_out net command d).0 ≡ (0, []))
        × ((answer_out net command d).1.bridge ≡ (bulk_out net command d.bridge).1)
  unfolding answer_out bulk_out
  answer_out-bridge command d e = rw e (refl, refl)

  respond_out :
      (s : Submit) (d : Device net) {response : List ℕ} {l : DapLink net}
      → IsOut s
      → request net s.payload d.bridge.link ≡ (ok response, l)
      → respond net (submit s) d ≡ (submitted s.seqnum 0 [], (answer_out net s.payload d).1)
  unfolding answer_submit
  respond_out s d q e =
      let bulk : (s.ep == 0) ≡ false = ground (arith, q.bulk) in
      let outward : (s.direction == 0) ≡ true = ground (arith, q.direction) in
      rw (bulk, outward)
        (ap (λ (a : ℕ × List ℕ). (submitted s.seqnum a.0 a.1, (answer_out net s.payload d).1))
          (answer_out-bridge s.payload d e).0)

  -- The answers to the whole exchange.
  respond_all-exchange :
      (o : Submit) (ins : List Submit) (d : Device net) {response : List ℕ} {l : DapLink net}
      → IsOut o
      → All IsIn ins
      → request net o.payload d.bridge.link ≡ (ok response, l)
      → (respond_all net (submit o ∷ submits ins) d).0
        ≡ submitted o.seqnum 0 []
          ∷ delivered (bulk_ins net limit_of ins (bulk_out net o.payload d.bridge).1).0
  unfolding respond_all
  respond_all-exchange o ins d q h e =
      let d₁ = (answer_out net o.payload d).1 in
      ap (λ (r : Ret × Device net). r.0 ∷ (respond_all net (submits ins) r.1).0)
        (respond_out o d q e)
      ∙ ap (λ rs. submitted o.seqnum 0 [] ∷ rs)
          (respond_all-delivered ins d₁ h
            ∙ ap (λ b. delivered (bulk_ins net limit_of ins b).0)
                (answer_out-bridge o.payload d e).1)

module _ (net : Net) (tcp : TcpStream) (delivers : Delivers tcp) where
  -- What a client gets that sends `o` and then `ins`, and whose connection does not fail: the OUT
  -- transfer succeeds, and every IN transfer, under its own sequence number; the IN transfers, each
  -- with no more bytes than it asked for, bring the response in order, and nothing is left to read.
  abbrev pub Brings : Submit → List Submit → List ℕ → Device net → List ℕ → Type 0
  Brings o ins sent d response =
      (taken : List (Submit × List ℕ)) × (out : List ℕ) × (d' : Device net) × (urb_loop net tcp
          (suc (suc (length ins))) (conn net tcp delivers (wire_of (submit o ∷ submits ins)) sent d)
        ≡ closed (conn net tcp delivers [] (sent ++ out) d'))
      × (parse_rets (suc (length ins)) out ≡ some (submitted o.seqnum 0 [] ∷ delivered taken, []))
      × (askers taken ≡ ins)
      × (data_of taken ≡ response)
      × All (WithinLimit net limit_of) taken

  -- After a command that the target answers, the client that asks often enough gets the whole
  -- response: the OUT transfer succeeds, every IN transfer succeeds under its own sequence number
  -- with no more bytes than it asked for, and their data, one behind the other, is the response. The
  -- limits of the IN transfers add up to at least the response's length, the transfers are well
  -- formed and on endpoints other than 0, and the connection fails no read or write.
  pub urb_loop-bulk :
      (o : Submit) (ins : List Submit) (response sent : List ℕ) (d : Device net) (l : DapLink net)
      → IsOut o
      → All IsIn ins
      → request net o.payload d.bridge.link ≡ (ok response, l)
      → length response ≤ total limit_of ins
      → Brings o ins sent d response
  urb_loop-bulk o ins response sent d l q h e enough =
      let us = submit o ∷ submits ins in
      let (out, ran, parsed) =
        urb_loop-respond_all net tcp delivers us sent d (q.well_formed, submits-IsUrb ins h) in
      let drains = bulk_ins-Drains net limit_of d.bridge o.payload response l ins e enough in
      (
        (bulk_ins net limit_of ins (bulk_out net o.payload d.bridge).1).0,
        out,
        (respond_all net us d).1,
        rw (length-submits ins) at ran,
        rw (length-submits ins) at parsed
            ∙ ap (λ rs. some (rs, [])) (respond_all-exchange net o ins d q h e),
        drains.each,
        drains.whole,
        drains.bounded,
      )
