-- ===== src/Usbip/Handshake.antt =====
-- A client that lists the devices, attaches ours, and goes on with URBs.
use esp32_dap_proxy.Prelude.{
  ℕ, zero, suc, ◌+◌, ◌≡◌, ap, ◌∙◌, some, List, [], ◌∷◌, ◌++◌, arith, length, append_assoc,
  append-nil,
}
use esp32_dap_proxy.Descriptors.{usbip_busid}
use esp32_dap_proxy.Link.{Net}
use esp32_dap_proxy.Usbip.Stream.{TcpStream, Delivers, write-state}
use esp32_dap_proxy.Usbip.Reply.{devlist_reply, import_reply, padded}
use esp32_dap_proxy.Usbip.Serve.{Device, Conn, after_write, closed, urb_loop}
use esp32_dap_proxy.Usbip.Client.{Urb, IsUrb, wire_of, parse_rets}
use esp32_dap_proxy.Usbip.Exchange.{urb_loop-respond_all}
use esp32_dap_proxy.Prelude.Bytes.{All}
use esp32_dap_proxy.Usbip.Session.{conn, respond_all}
use esp32_dap_proxy.Usbip.Attach.{handle_connection, request, after_head, after_busid, counted}

-- OP_REQ_DEVLIST and OP_REQ_IMPORT, with a status of zero.
abbrev op_head : ℕ → List ℕ
op_head command = 0x01 ∷ 0x11 ∷ 0x80 ∷ command ∷ 0 ∷ 0 ∷ 0 ∷ 0 ∷ []

abbrev pub devlist_request : List ℕ
devlist_request = op_head 0x05

abbrev pub import_request : List ℕ
import_request = op_head 0x03 ++ padded 32 usbip_busid

abbrev pub repeated : ℕ → List ℕ → List ℕ
repeated zero bytes = []
repeated (suc n) bytes = bytes ++ repeated n bytes

module _ (net : Net) (tcp : TcpStream) (delivers : Delivers tcp) where
  import-urb_loop :
      (fuel urbs : ℕ) (rest sent : List ℕ) (d : Device net)
      → handle_connection net tcp
          (suc fuel)
          urbs
          (conn net tcp delivers (import_request ++ rest) sent d)
        ≡ urb_loop net tcp urbs (conn net tcp delivers rest (sent ++ import_reply) (counted net d))
  unfolding handle_connection request
  import-urb_loop fuel urbs rest sent d =
      let busid = padded 32 usbip_busid in
      let next = λ (c : Conn net tcp). handle_connection net tcp fuel urbs c in
      let attached = urb_loop net tcp urbs in
      ap (λ r. after_head net tcp r d next attached)
        (delivers.read_exact-append (op_head 0x03) (busid ++ rest) sent)
      ∙ ap (λ r. after_busid net tcp r d attached) (delivers.read_exact-append busid rest sent)
      ∙ ap (λ w. after_write net tcp w (counted net d) attached)
          (write-state tcp delivers import_reply rest sent)

  devlist_round :
      (fuel urbs : ℕ) (rest sent : List ℕ) (d : Device net)
      → handle_connection net tcp
          (suc fuel)
          urbs
          (conn net tcp delivers (devlist_request ++ rest) sent d)
        ≡ handle_connection net tcp fuel urbs (conn net tcp delivers rest (sent ++ devlist_reply) d)
  unfolding handle_connection request
  devlist_round fuel urbs rest sent d =
      let next = λ (c : Conn net tcp). handle_connection net tcp fuel urbs c in
      ap (λ r. after_head net tcp r d next (urb_loop net tcp urbs))
        (delivers.read_exact-append devlist_request rest sent)
      ∙ ap (λ w. after_write net tcp w d next) (write-state tcp delivers devlist_reply rest sent)

  devlist_rounds :
      (n fuel urbs : ℕ) (rest sent : List ℕ) (d : Device net)
      → handle_connection net tcp
          (n + fuel)
          urbs
          (conn net tcp delivers (repeated n devlist_request ++ rest) sent d)
        ≡ handle_connection net tcp fuel urbs
            (conn net tcp delivers rest (sent ++ repeated n devlist_reply) d)
  devlist_rounds zero fuel urbs rest sent d =
      let e : 0 + fuel ≡ fuel = omega arith in rw (e, append-nil)
  devlist_rounds (suc n) fuel urbs rest sent d =
      let e : suc n + fuel ≡ suc (n + fuel) = omega arith in
      let more = repeated n devlist_request ++ rest in
      rw (e, append_assoc devlist_request (repeated n devlist_request) rest)
        (devlist_round (n + fuel) urbs more sent d
          ∙ devlist_rounds n fuel urbs rest (sent ++ devlist_reply) d
          ∙ ap (λ out. handle_connection net tcp fuel urbs (conn net tcp delivers rest out d))
              (append_assoc sent devlist_reply (repeated n devlist_reply)))

  -- A client that asks for the list of devices any number of times, attaches the device `1-1`, and
  -- sends URBs, gets the list as often as it asked, then the acceptance, and then the answers to its
  -- URBs, in order; one USB session is counted, in front of the first URB. The URBs fit the fields
  -- of their headers, and the connection fails no read or write.
  pub handle_connection-session :
      (n : ℕ) (us : List Urb) (sent : List ℕ) (d : Device net)
      → All IsUrb us
      → let (rets, d') = respond_all net us (counted net d) in
        (out : List ℕ) × (handle_connection net tcp (n + 1) (suc (length us)) (
            conn net tcp delivers
              (repeated n devlist_request ++ (import_request ++ wire_of us))
              sent
              d)
          ≡ closed (
              conn net tcp delivers []
                (((sent ++ repeated n devlist_reply) ++ import_reply) ++ out)
                d'))
        × (parse_rets (length us) out ≡ some (rets, []))
  handle_connection-session n us sent d h =
      let listed = sent ++ repeated n devlist_reply in
      let (out, ran, parsed) =
        urb_loop-respond_all net tcp delivers us (listed ++ import_reply) (counted net d) h in
      (
        out,
        devlist_rounds n 1 (suc (length us)) (import_request ++ wire_of us) sent d
            ∙ import-urb_loop 0 (suc (length us)) (wire_of us) listed d
            ∙ ran,
        parsed,
      )
