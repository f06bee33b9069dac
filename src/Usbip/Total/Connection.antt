-- ===== src/Usbip/Total/Connection.antt =====
-- A connection to usbip.rs ends, whatever the client sends and whatever becomes of the writes.
use esp32_dap_proxy.Prelude.{
  ℕ, zero, suc, ◌≤◌, ◌<◌, ◌≡◌, refl, true, Option, none, some, List, ◌==◌, arith, get_or,
  Bool-cases, inl, inr,
}
use esp32_dap_proxy.Prelude.Bytes.{u16_from_be_bytes}
use esp32_dap_proxy.Link.{Net}
use esp32_dap_proxy.Usbip.Stream.{TcpStream, ReadFrom, Finite}
use esp32_dap_proxy.Usbip.Reply.{version, devlist_reply, import_refusal, import_reply}
use esp32_dap_proxy.Usbip.Serve.{Device, Conn, Ending, closed}
use esp32_dap_proxy.Usbip.Attach.{
  op_req_devlist, op_req_import, is_ours, counted, after_busid, request, after_head,
  handle_connection,
}
use esp32_dap_proxy.Usbip.Total.{is_over, EndsBelow, after_write-over, write-over, urb_loop-is_over}

module _ (net : Net) (tcp : TcpStream) (client : Finite tcp) where
  open client use {left}

  after_busid-over :
      (s : tcp.State) (r : Option (List ℕ) × tcp.State) (d : Device net) (n : ℕ)
      (attached : Conn net tcp → Ending net tcp)
      → ReadFrom tcp left 32 s r
      → left s < n
      → EndsBelow net tcp client n attached
      → is_over net tcp client (after_busid net tcp r d attached) ≡ true
  after_busid-over s (none, s') d n attached h k l = refl
  after_busid-over s (some busid, s') d n attached h k l = elim (Bool-cases (is_ours busid)) [
    | inl ours ↦
        rw ours
          (write-over net tcp client import_reply s' (counted net d) n attached (omega arith) l)
    | inr other ↦ rw other (
        after_write-over net tcp client (tcp.write_all import_refusal s') d n closed
          (omega (arith, client.left-write_all import_refusal s')) (λ c h'. refl))
  ]

  request-over :
      (head : List ℕ) (c : Conn net tcp) (n m : ℕ) (next attached : Conn net tcp → Ending net tcp)
      → left c.stream < n
      → EndsBelow net tcp client n next
      → left c.stream < m
      → EndsBelow net tcp client m attached
      → is_over net tcp client (request net tcp head c next attached) ≡ true
  unfolding request
  request-over head c n m next attached h k h' k' =
      let command = u16_from_be_bytes (get_or head 2 0) (get_or head 3 0) in
      let asked = u16_from_be_bytes (get_or head 0 0) (get_or head 1 0) in
      elim (Bool-cases (asked == version)) [
        | inr unknown ↦ rw unknown
        | inl known ↦ elim (Bool-cases (command == op_req_devlist)) [
          | inl list ↦
              rw (known, list)
                (write-over net tcp client devlist_reply c.stream c.device n next h k)
          | inr no_list ↦ elim (Bool-cases (command == op_req_import)) [
            | inl attach ↦
                rw (known, no_list, attach)
                  (after_busid-over c.stream (tcp.read_exact 32 c.stream) c.device m attached
                    (client.read_exact-ReadFrom 32 c.stream) h' k')
            | inr other ↦ rw (known, no_list, other)
          ]
        ]
      ]

  after_head-over :
      (s : tcp.State) (r : Option (List ℕ) × tcp.State) (d : Device net) (n m : ℕ)
      (next attached : Conn net tcp → Ending net tcp)
      → ReadFrom tcp left 8 s r
      → left s ≤ n
      → EndsBelow net tcp client n next
      → left s < m
      → EndsBelow net tcp client m attached
      → is_over net tcp client (after_head net tcp r d next attached) ≡ true
  after_head-over s (none, s') d n m next attached h k l k' l' = refl
  after_head-over s (some head, s') d n m next attached h k l k' l' =
      request-over head (record { stream = s'; device = d }) n m next attached (omega arith) l
        (omega arith) l'

  -- Whatever the client sends, requests and URBs that are whole or not, known or not, and whatever
  -- reads and writes fail, the handling of its connection ends with a result of the source's
  -- function: both loops make no more rounds than there are bytes to come, and one. The client sends
  -- no more than so many bytes.
  pub handle_connection-is_over :
      (fuel urbs : ℕ) (c : Conn net tcp)
      → left c.stream < fuel
      → left c.stream < urbs
      → is_over net tcp client (handle_connection net tcp fuel urbs c) ≡ true
  unfolding handle_connection
  handle_connection-is_over zero urbs c h k = absurd (omega arith)
  handle_connection-is_over (suc fuel) urbs c h k =
      after_head-over c.stream (tcp.read_exact 8 c.stream) c.device (left c.stream) urbs _ _
        (client.read_exact-ReadFrom 8 c.stream) (omega arith)
        (λ c' less. handle_connection-is_over fuel urbs c' (omega arith) (omega arith)) k
        (urb_loop-is_over net tcp client urbs)
