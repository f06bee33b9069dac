-- ===== src/Usbip/Total.antt =====
-- The loop over the URBs of usbip.rs ends, whatever the client sends and whatever becomes of the
-- writes; Connection is about the whole connection.
pub mod Connection
use esp32_dap_proxy.Prelude.{
  ℕ, zero, suc, ◌≤◌, ◌<◌, ◌≡◌, refl, Bool, true, false, Option, none, some, List, ltb, ◌==◌, ◌&&◌,
  arith, Bool-cases, inl, inr,
}
use esp32_dap_proxy.Link.{Net}
use esp32_dap_proxy.Usbip.Stream.{TcpStream, ReadFrom, Finite, write}
use esp32_dap_proxy.Usbip.Reply.{unlink_reply}
use esp32_dap_proxy.Usbip.Serve.{
  field, cmd_submit, cmd_unlink, Device, Conn, Ending, closed, broke, out_of_fuel, after_write,
  after_data, out_data_of, after_header, dispatch, urb_loop,
}

write-left :
    (tcp : TcpStream) (client : Finite tcp) (bytes : List ℕ) (s : tcp.State)
    → client.left (write tcp bytes s).1 ≤ client.left s
unfolding write
write-left tcp client bytes s =
    let less = client.left-write_all bytes s in
    elim (Bool-cases (tcp.write_all bytes s).0) [
      | inl written ↦ rw written (omega (arith, client.left-flush (tcp.write_all bytes s).1))
      | inr failed ↦ rw failed less
    ]

module _ (net : Net) (tcp : TcpStream) (client : Finite tcp) where
  open client use {left}

  abbrev pub is_over : Ending net tcp → Bool
  is_over (closed c) = true
  is_over (broke c) = true
  is_over out_of_fuel = false

  -- What follows ends on every connection with less to come than this.
  abbrev pub EndsBelow : ℕ → (Conn net tcp → Ending net tcp) → Type 0
  EndsBelow n next = (c : Conn net tcp) → left c.stream < n → is_over (next c) ≡ true

  pub after_write-over :
      (w : Bool × tcp.State) (d : Device net) (n : ℕ) (next : Conn net tcp → Ending net tcp)
      → left w.1 < n
      → EndsBelow n next
      → is_over (after_write net tcp w d next) ≡ true
  after_write-over (true, s) d n next h k = k _ h
  after_write-over (false, s) d n next h k = refl

  pub write-over :
      (bytes : List ℕ) (s : tcp.State) (d : Device net) (n : ℕ)
      (next : Conn net tcp → Ending net tcp)
      → left s < n
      → EndsBelow n next
      → is_over (after_write net tcp (write tcp bytes s) d next) ≡ true
  write-over bytes s d n next h k =
      after_write-over (write tcp bytes s) d n next (omega (arith, write-left tcp client bytes s)) k

  after_data-over :
      (hdr : List ℕ) (m : ℕ) (s : tcp.State) (r : Option (List ℕ) × tcp.State) (d : Device net)
      (n : ℕ) (next : Conn net tcp → Ending net tcp)
      → ReadFrom tcp left m s r
      → left s < n
      → EndsBelow n next
      → is_over (after_data net tcp hdr r d next) ≡ true
  after_data-over hdr m s (none, s') d n next h k l = refl
  after_data-over hdr m s (some out_data, s') d n next h k l =
      write-over _ s' _ n next (omega arith) l

  out_data_of-ReadFrom :
      (direction len : ℕ) (s : tcp.State)
      → (m : ℕ) × ReadFrom tcp left m s (out_data_of net tcp direction len s)
  out_data_of-ReadFrom direction len s = elim (Bool-cases ((direction == 0) && ltb 0 len)) [
    | inl reads ↦ (len, rw reads (client.read_exact-ReadFrom len s))
    | inr none_read ↦ (0, rw none_read (omega arith))
  ]

  dispatch-over :
      (hdr : List ℕ) (c : Conn net tcp) (n : ℕ) (next : Conn net tcp → Ending net tcp)
      → left c.stream < n
      → EndsBelow n next
      → is_over (dispatch net tcp hdr c next) ≡ true
  unfolding dispatch
  dispatch-over hdr c n next h k =
      let direction = field 12 hdr in
      let len = field 24 hdr in
      let (m, reads) = out_data_of-ReadFrom direction len c.stream in
      elim (Bool-cases (field 0 hdr == cmd_submit)) [
        | inl submit ↦ rw submit (
            after_data-over hdr m c.stream (out_data_of net tcp direction len c.stream) c.device n
              next reads h k)
        | inr other ↦ elim (Bool-cases (field 0 hdr == cmd_unlink)) [
          | inl unlink ↦
              rw (other, unlink)
                (write-over (unlink_reply (field 4 hdr)) c.stream c.device n next h k)
          | inr unknown ↦ rw (other, unknown)
        ]
      ]

  after_header-over :
      (s : tcp.State) (r : Option (List ℕ) × tcp.State) (d : Device net) (n : ℕ)
      (next : Conn net tcp → Ending net tcp)
      → ReadFrom tcp left 48 s r
      → left s < suc n
      → EndsBelow n next
      → is_over (after_header net tcp r d next) ≡ true
  after_header-over s (none, s') d n next h k l = refl
  after_header-over s (some hdr, s') d n next h k l =
      dispatch-over hdr (record { stream = s'; device = d }) n next (omega arith) l

  pub urb_loop-is_over :
      (fuel : ℕ) (c : Conn net tcp)
      → left c.stream < fuel
      → is_over (urb_loop net tcp fuel c) ≡ true
  unfolding urb_loop
  urb_loop-is_over zero c h = absurd (omega arith)
  urb_loop-is_over (suc fuel) c h =
      after_header-over c.stream (tcp.read_exact 48 c.stream) c.device fuel _
        (client.read_exact-ReadFrom 48 c.stream) h (urb_loop-is_over fuel)
