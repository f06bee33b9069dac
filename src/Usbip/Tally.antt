-- ===== src/Usbip/Tally.antt =====
-- What the counters of metrics.rs say of a session of usbip.rs.
use esp32_dap_proxy.Prelude.{
  ℕ, suc, ◌+◌, ◌%◌, ◌^◌, ◌<◌, ◌≡◌, refl, some, List, [], ◌∷◌, ◌++◌, Result, ok, err, ◌==◌,
  if◌then◌else◌, arith, length, Bool-cases, inl, inr,
}
use esp32_dap_proxy.Prelude.Bytes.{All}
use esp32_dap_proxy.Link.{LinkError, Net}
use esp32_dap_proxy.Bridge.{DapBridge, bulk_out}
use esp32_dap_proxy.Metrics.{Counters, zeroed}
use esp32_dap_proxy.Usbip.Stream.{TcpStream, Delivers}
use esp32_dap_proxy.Usbip.Serve.{
  Device, out_answer, answer_submit, answer_control, answer_out, answer_in, closed, urb_loop,
}
use esp32_dap_proxy.Usbip.Client.{
  Submit, Urb, submit, unlink, wire_of, IsUrb, Ret, submitted, parse_rets,
}
use esp32_dap_proxy.Usbip.Session.{respond, respond_all, conn}
use esp32_dap_proxy.Usbip.Exchange.{urb_loop-respond_all}

-- What one transfer and its status and data count for.
abbrev pub tally_submit : Submit → ℕ → List ℕ → Counters
tally_submit s status bytes =
    if s.ep == 0
    then record zeroed { ep0_requests = 1 }
    else if s.direction == 0
    then (if status == 0
        then record zeroed { ep1_out_frames = 1; ep1_out_bytes = length s.payload }
        else zeroed)
    else if s.direction == 1
    then record zeroed { ep1_in_frames = 1; ep1_in_bytes = length bytes }
    else zeroed

abbrev pub tally_one : Urb → Ret → Counters
tally_one (submit s) (submitted seqnum status bytes) = tally_submit s status bytes
tally_one u r = zeroed

abbrev pub plus : Counters → Counters → Counters
plus a b = record {
  usb_sessions = a.usb_sessions + b.usb_sessions;
  ep0_requests = a.ep0_requests + b.ep0_requests;
  ep1_out_frames = a.ep1_out_frames + b.ep1_out_frames;
  ep1_out_bytes = a.ep1_out_bytes + b.ep1_out_bytes;
  ep1_in_frames = a.ep1_in_frames + b.ep1_in_frames;
  ep1_in_bytes = a.ep1_in_bytes + b.ep1_in_bytes;
}

-- What a client's transfers count for, by the replies that it got.
abbrev pub tally : List Urb → List Ret → Counters
tally (u ∷ us) (r ∷ rs) = plus (tally_one u r) (tally us rs)
tally _ _ = zeroed

-- The counters moved on by a tally.
pub record Tallied (c k c' : Counters) : Type 0 where
  pub usb_sessions : c'.usb_sessions ≡ (c.usb_sessions + k.usb_sessions) % 2 ^ 64
  pub ep0_requests : c'.ep0_requests ≡ (c.ep0_requests + k.ep0_requests) % 2 ^ 64
  pub ep1_out_frames : c'.ep1_out_frames ≡ (c.ep1_out_frames + k.ep1_out_frames) % 2 ^ 64
  pub ep1_out_bytes : c'.ep1_out_bytes ≡ (c.ep1_out_bytes + k.ep1_out_bytes) % 2 ^ 64
  pub ep1_in_frames : c'.ep1_in_frames ≡ (c.ep1_in_frames + k.ep1_in_frames) % 2 ^ 64
  pub ep1_in_bytes : c'.ep1_in_bytes ≡ (c.ep1_in_bytes + k.ep1_in_bytes) % 2 ^ 64

-- The counters are u64.
pub record AreU64 (c : Counters) : Type 0 where
  pub usb_sessions : c.usb_sessions < 2 ^ 64
  pub ep0_requests : c.ep0_requests < 2 ^ 64
  pub ep1_out_frames : c.ep1_out_frames < 2 ^ 64
  pub ep1_out_bytes : c.ep1_out_bytes < 2 ^ 64
  pub ep1_in_frames : c.ep1_in_frames < 2 ^ 64
  pub ep1_in_bytes : c.ep1_in_bytes < 2 ^ 64

pub tally_more : (c k d l e : Counters) → Tallied c k d → Tallied d l e → Tallied c (plus k l) e
tally_more c k d l e h t = record {
  usb_sessions = omega (arith, h.usb_sessions, t.usb_sessions);
  ep0_requests = omega (arith, h.ep0_requests, t.ep0_requests);
  ep1_out_frames = omega (arith, h.ep1_out_frames, t.ep1_out_frames);
  ep1_out_bytes = omega (arith, h.ep1_out_bytes, t.ep1_out_bytes);
  ep1_in_frames = omega (arith, h.ep1_in_frames, t.ep1_in_frames);
  ep1_in_bytes = omega (arith, h.ep1_in_bytes, t.ep1_in_bytes);
}

pub Tallied-AreU64 : (c k d : Counters) → Tallied c k d → AreU64 d
Tallied-AreU64 c k d h = record {
  usb_sessions = omega (arith, h.usb_sessions);
  ep0_requests = omega (arith, h.ep0_requests);
  ep1_out_frames = omega (arith, h.ep1_out_frames);
  ep1_out_bytes = omega (arith, h.ep1_out_bytes);
  ep1_in_frames = omega (arith, h.ep1_in_frames);
  ep1_in_bytes = omega (arith, h.ep1_in_bytes);
}

-- A counter that does not move.
stays : (c : ℕ) → c < 2 ^ 64 → c ≡ (c + 0) % 2 ^ 64
stays c h = omega arith

pub zeroed-Tallied : (c : Counters) → AreU64 c → Tallied c zeroed c
zeroed-Tallied c h = record {
  usb_sessions = stays c.usb_sessions h.usb_sessions;
  ep0_requests = stays c.ep0_requests h.ep0_requests;
  ep1_out_frames = stays c.ep1_out_frames h.ep1_out_frames;
  ep1_out_bytes = stays c.ep1_out_bytes h.ep1_out_bytes;
  ep1_in_frames = stays c.ep1_in_frames h.ep1_in_frames;
  ep1_in_bytes = stays c.ep1_in_bytes h.ep1_in_bytes;
}

module _ (net : Net) where
  -- What an OUT transfer counts for, by its status.
  abbrev out_tally : ℕ → ℕ → Counters
  out_tally len status =
      if status == 0 then record zeroed { ep1_out_frames = 1; ep1_out_bytes = len } else zeroed

  out_answer-Tallied :
      (len : ℕ) (r : Result (Unit {0}) LinkError × DapBridge net) (c : Counters)
      → AreU64 c
      → let a = out_answer net len r c in Tallied c (out_tally len a.0.0) a.1.counters
  out_answer-Tallied len (ok u, b) c h =
      let z = zeroed-Tallied c h in
      record {
        usb_sessions = z.usb_sessions;
        ep0_requests = z.ep0_requests;
        ep1_out_frames = refl;
        ep1_out_bytes = refl;
        ep1_in_frames = z.ep1_in_frames;
        ep1_in_bytes = z.ep1_in_bytes;
      }
  out_answer-Tallied len (err e, b) c h = zeroed-Tallied c h

  answer_submit-Tallied :
      (s : Submit) (d : Device net)
      → AreU64 d.counters
      → let a = answer_submit net s.ep s.direction s.transfer_len s.setup s.payload d in
        Tallied d.counters (tally_submit s a.0.0 a.0.1) a.1.counters
  unfolding answer_submit answer_control answer_out answer_in
  answer_submit-Tallied s d h =
      let z = zeroed-Tallied d.counters h in
      elim (Bool-cases (s.ep == 0)) [
        | inl control ↦ rw control (record {
          usb_sessions = z.usb_sessions;
          ep0_requests = refl;
          ep1_out_frames = z.ep1_out_frames;
          ep1_out_bytes = z.ep1_out_bytes;
          ep1_in_frames = z.ep1_in_frames;
          ep1_in_bytes = z.ep1_in_bytes;
        })
        | inr bulk ↦ elim (Bool-cases (s.direction == 0)) [
          | inl out ↦
              rw (bulk, out)
                (out_answer-Tallied (length s.payload) (bulk_out net s.payload d.bridge) d.counters
                  h)
          | inr not_out ↦ elim (Bool-cases (s.direction == 1)) [
            | inl inward ↦
                rw (bulk, not_out, inward)
                  (record {
                    usb_sessions = z.usb_sessions;
                    ep0_requests = z.ep0_requests;
                    ep1_out_frames = z.ep1_out_frames;
                    ep1_out_bytes = z.ep1_out_bytes;
                    ep1_in_frames = refl;
                    ep1_in_bytes = refl;
                  })
            | inr other ↦ rw (bulk, not_out, other) z
          ]
        ]
      ]

  pub respond-Tallied :
      (u : Urb) (d : Device net)
      → AreU64 d.counters
      → let (r, d') = respond net u d in Tallied d.counters (tally_one u r) d'.counters
  respond-Tallied (submit s) d h = answer_submit-Tallied s d h
  respond-Tallied (unlink seqnum devid target) d h = zeroed-Tallied d.counters h

  pub respond_all-Tallied :
      (us : List Urb) (d : Device net)
      → AreU64 d.counters
      → let (rets, d') = respond_all net us d in Tallied d.counters (tally us rets) d'.counters
  unfolding respond_all
  respond_all-Tallied [] d h = zeroed-Tallied d.counters h
  respond_all-Tallied (u ∷ us) d h =
      let one = respond-Tallied u d h in
      let d' = (respond net u d).1 in
      tally_more _ _ d'.counters _ _ one
        (respond_all-Tallied us d' (Tallied-AreU64 _ _ d'.counters one))

module _ (net : Net) (tcp : TcpStream) (delivers : Delivers tcp) where
  -- The counters of a session can be told from what the client sent and got: they move on by one for
  -- each transfer on endpoint 0, for each OUT transfer that succeeds with the bytes that it brings,
  -- and for each IN transfer with the bytes that it returns, modulo 2^64; nothing else counts. The
  -- client's URBs fit the fields of their headers, its connection fails no read or write before the
  -- client's end, and the counters are u64.
  pub urb_loop-Tallied :
      (us : List Urb) (sent : List ℕ) (d : Device net)
      → All IsUrb us
      → AreU64 d.counters
      → (out : List ℕ) × (rets : List Ret) × (d' : Device net) × (urb_loop net tcp
            (suc (length us))
            (conn net tcp delivers (wire_of us) sent d)
          ≡ closed (conn net tcp delivers [] (sent ++ out) d'))
        × (parse_rets (length us) out ≡ some (rets, []))
        × Tallied d.counters (tally us rets) d'.counters
  urb_loop-Tallied us sent d h k =
      let (rets, d') = respond_all net us d in
      let (out, ran, read) = urb_loop-respond_all net tcp delivers us sent d h in
      (out, rets, d', ran, read, respond_all-Tallied net us d k)
