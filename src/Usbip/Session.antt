-- ===== src/Usbip/Session.antt =====
-- A session of usbip.rs: the loop answers the client's URBs one by one.
use esp32_dap_proxy.Prelude.{
  ℕ, suc, ◌/◌, ◌%◌, ◌≡◌, refl, ap, ◌∙◌, true, some, List, [], ◌∷◌, ◌++◌, ◌==◌, ltb, arith,
  if◌then◌else◌, length, take, take_all, append_assoc, append-nil,
}
use esp32_dap_proxy.Prelude.Bytes.{All, IsU32, u32_from_be_bytes}
use esp32_dap_proxy.Link.{Net}
use esp32_dap_proxy.Usbip.Stream.{TcpStream, Delivers, write-state}
use esp32_dap_proxy.Usbip.Serve.{
  Device, answer_submit, Conn, Ending, closed, urb_loop, dispatch, after_header, after_write,
  out_data_of, field,
}
use esp32_dap_proxy.Usbip.Parse.{encode_ret, encode_rets}
use esp32_dap_proxy.Usbip.Client.{
  Urb, submit, unlink, encode_urb, submit_header, unlink_header, wire_of, IsUrb, Ret, submitted,
  unlinked,
}

abbrev pub header_of : Urb → List ℕ
header_of (submit s) = submit_header s
header_of (unlink seqnum devid target) = unlink_header seqnum devid target

abbrev payload_of : Urb → List ℕ
payload_of (submit s) = s.payload
payload_of (unlink seqnum devid target) = []

field_lem :
    (v : ℕ)
    → IsU32 v
    → u32_from_be_bytes (v / 16777216 % 256) (v / 65536 % 256) (v / 256 % 256) (v % 256) ≡ v
field_lem v h = omega arith

header-48 : (u : Urb) → IsUrb u → length (header_of u) ≡ 48
header-48 (submit s) h = omega (arith, h.setup_len)
header-48 (unlink seqnum devid target) h = refl

module _ (net : Net) where
  -- The specification: each URB is answered in the state that the one before it left.
  abbrev pub respond : Urb → Device net → Ret × Device net
  respond (submit s) d =
      let ((status, bytes), d') =
        answer_submit net s.ep s.direction s.transfer_len s.setup s.payload d in
      (submitted s.seqnum status bytes, d')
  respond (unlink seqnum devid target) d = (unlinked seqnum, d)

  unfoldable pub respond_all : List Urb → Device net → List Ret × Device net
  respond_all [] d = ([], d)
  respond_all (u ∷ us) d =
      let (r, d') = respond u d in let (rs, d'') = respond_all us d' in (r ∷ rs, d'')

module _ (net : Net) (tcp : TcpStream) (delivers : Delivers tcp) where
  abbrev pub conn : List ℕ → List ℕ → Device net → Conn net tcp
  conn incoming sent d = record { stream = delivers.state incoming sent; device = d }

  out_data_of-append :
      (direction len : ℕ) (payload rest sent : List ℕ)
      → length payload ≡ (if direction == 0 then len else 0)
      → out_data_of net tcp direction len (delivers.state (payload ++ rest) sent)
        ≡ (some payload, delivers.state rest sent)
  out_data_of-append direction len [] rest sent h = ground arith
  out_data_of-append direction len (x ∷ xs) rest sent h =
      let out : (direction == 0) ≡ true = ground arith in
      let some_data : ltb 0 len ≡ true = ground arith in
      let whole : len ≡ length (x ∷ xs) = ground arith in
      rw (out, some_data, whole) (delivers.read_exact-append (x ∷ xs) rest sent)

  dispatch-respond :
      (u : Urb) (rest sent : List ℕ) (d : Device net) (next : Conn net tcp → Ending net tcp)
      → IsUrb u
      → dispatch net tcp (header_of u) (conn (payload_of u ++ rest) sent d) next
        ≡ next (conn rest (sent ++ encode_ret (respond net u d).0) (respond net u d).1)
  unfolding dispatch
  dispatch-respond (submit s) rest sent d next h =
      let hdr = submit_header s in
      let direction : field 12 hdr ≡ s.direction = field_lem s.direction h.direction_u32 in
      let len : field 24 hdr ≡ s.transfer_len = field_lem s.transfer_len h.transfer_len_u32 in
      let seqnum : field 4 hdr ≡ s.seqnum = field_lem s.seqnum h.seqnum_u32 in
      let ep : field 16 hdr ≡ s.ep = field_lem s.ep h.ep_u32 in
      let setup : take 8 s.setup ≡ s.setup = take_all 8 s.setup (omega (arith, h.setup_len)) in
      rw
        (
          direction,
          len,
          out_data_of-append s.direction s.transfer_len s.payload rest sent h.payload_len,
          direction,
          len,
          seqnum,
          ep,
          setup,
        )
        (ap (λ w. after_write net tcp w (respond net (submit s) d).1 next)
          (write-state tcp delivers (encode_ret (respond net (submit s) d).0) rest sent))
  dispatch-respond (unlink seqnum devid target) rest sent d next h = rw (field_lem seqnum h) (
      ap (λ w. after_write net tcp w d next)
        (write-state tcp delivers (encode_ret (unlinked seqnum)) rest sent))

  urb-append :
      (u : Urb) (rest : List ℕ) → encode_urb u ++ rest ≡ header_of u ++ (payload_of u ++ rest)
  urb-append (submit s) rest = append_assoc (submit_header s) s.payload rest
  urb-append (unlink seqnum devid target) rest = refl

  -- The header is read.
  read-header :
      (u : Urb) (rest sent : List ℕ)
      → IsUrb u
      → tcp.read_exact 48 (delivers.state (encode_urb u ++ rest) sent)
        ≡ (some (header_of u), delivers.state (payload_of u ++ rest) sent)
  read-header u rest sent h =
      rw (urb-append u rest, ← header-48 u h)
        (delivers.read_exact-append (header_of u) (payload_of u ++ rest) sent)

  loop_round :
      (fuel : ℕ) (u : Urb) (rest sent : List ℕ) (d : Device net)
      → IsUrb u
      → urb_loop net tcp (suc fuel) (conn (encode_urb u ++ rest) sent d)
        ≡ urb_loop net tcp fuel
            (conn rest (sent ++ encode_ret (respond net u d).0) (respond net u d).1)
  unfolding urb_loop
  loop_round fuel u rest sent d h =
      ap (λ r. after_header net tcp r d (λ c'. urb_loop net tcp fuel c'))
        (read-header u rest sent h)
      ∙ dispatch-respond u rest sent d (λ c'. urb_loop net tcp fuel c') h

  loop_end :
      (fuel : ℕ) (sent : List ℕ) (d : Device net)
      → urb_loop net tcp (suc fuel) (conn [] sent d) ≡ closed (conn [] sent d)
  unfolding urb_loop
  loop_end fuel sent d =
      ap (λ r. after_header net tcp r d (λ c'. urb_loop net tcp fuel c'))
        (delivers.read_exact-end 47 sent)

  pub urb_loop-encode_rets :
      (us : List Urb) (sent : List ℕ) (d : Device net)
      → All IsUrb us
      → urb_loop net tcp (suc (length us)) (conn (wire_of us) sent d)
        ≡ closed (conn [] (sent ++ encode_rets (respond_all net us d).0) (respond_all net us d).1)
  unfolding respond_all
  urb_loop-encode_rets [] sent d h = rw append-nil (loop_end 0 sent d)
  urb_loop-encode_rets (u ∷ us) sent d h =
      let (r, d') = respond net u d in
      loop_round (suc (length us)) u (wire_of us) sent d h.0
      ∙ urb_loop-encode_rets us (sent ++ encode_ret r) d' h.1
      ∙ ap (λ out. closed (conn [] out (respond_all net us d').1))
          (append_assoc sent (encode_ret r) (encode_rets (respond_all net us d').0))
