-- ===== src/Remote/Register.antt =====
-- A register of the debug target, read by a USB client through both programs.
use esp32_dap_proxy.Prelude.{
  ℕ, zero, suc, min, ◌+◌, ◌*◌, ◌^◌, ◌≤◌, ◌<◌, ◌≡◌, refl, sym, ap, subst, ◌∙◌, true, false, Option,
  none, some, List, [], ◌∷◌, ◌++◌, arith, length, take, drop,
}
use esp32_dap_proxy.Prelude.Bytes.{All, u32_to_le_bytes}
use esp32_dap_proxy.Io.{Io}
use esp32_dap_proxy.Io.Line.{Line}
use esp32_dap_proxy.Swd.{swd_transport}
use esp32_dap_proxy.Swd.Waits.{DrivesAfter}
use esp32_dap_proxy.Dap.State.{Dap}
use esp32_dap_proxy.Dap.Loop.{apndp_of, rnw_of, address_of, is_reserved, perform}
use esp32_dap_proxy.Dap.Transfer.{parse, dap_transfer-perform}
use esp32_dap_proxy.Dap.Handle.{command, behind, handle}
use esp32_dap_proxy.Dap.Serve.{Session}
use esp32_dap_proxy.Usbip.Stream.{TcpStream, Delivers}
use esp32_dap_proxy.Usbip.Serve.{Device}
use esp32_dap_proxy.Usbip.Client.{Submit}
use esp32_dap_proxy.Bridge.Drain.{total}
use esp32_dap_proxy.Usbip.Bulk.{IsOut, IsIn, limit_of, Brings}
use esp32_dap_proxy.Remote.{Network, probe_net, IsReady}
use esp32_dap_proxy.Remote.Command.{IsCommand}
use esp32_dap_proxy.Remote.Read.{read-waits}
use esp32_dap_proxy.Remote.Usb.{urb_loop-handle}

-- The request byte of a read of the debug port's register at the address `4 * i`.
abbrev pub read_byte : ℕ → ℕ
read_byte i = 2 + 4 * i

-- DAP_Transfer with that one access.
abbrev pub read_request : ℕ → List ℕ
read_request i = 0x05 ∷ 0x00 ∷ 1 ∷ read_byte i ∷ []

record IsRegisterRead (i : ℕ) : Type 0 where
  plain : is_reserved (read_byte i) ≡ false
  of_dp : apndp_of (read_byte i) ≡ false
  reads : rnw_of (read_byte i) ≡ true
  at_address : address_of (read_byte i) ≡ 4 * i

read_byte-IsRegisterRead : (i : ℕ) → i < 4 → IsRegisterRead i
read_byte-IsRegisterRead zero h = record {
  plain = refl;
  of_dp = refl;
  reads = refl;
  at_address = refl;
}
read_byte-IsRegisterRead (suc zero) h = record {
  plain = refl;
  of_dp = refl;
  reads = refl;
  at_address = refl;
}
read_byte-IsRegisterRead (suc (suc zero)) h = record {
  plain = refl;
  of_dp = refl;
  reads = refl;
  at_address = refl;
}
read_byte-IsRegisterRead (suc (suc (suc zero))) h = record {
  plain = refl;
  of_dp = refl;
  reads = refl;
  at_address = refl;
}
read_byte-IsRegisterRead (suc (suc (suc (suc i)))) h = absurd (omega arith)

module _ (pins : Io) (line : Line pins) where
  open line use {clock}

  -- What the one access comes to.
  perform-read :
      (i k v : ℕ) (d : Dap (swd_transport pins))
      → i < 4
      → k ≤ min d.wait_retry 128
      → v < 2 ^ 32
      → DrivesAfter pins line k (clock d.transport.pins) v
      → let p = parse 1 (read_byte i ∷ []) in
        (d' : Dap (swd_transport pins)) × (perform (swd_transport pins) p.0 p.1 d
          ≡ record { dap = d'; done = 1; status = 1; out = u32_to_le_bytes v })
  unfolding parse perform
  perform-read i k v d small few fits drives =
      let b = read_byte-IsRegisterRead i small in
      let (d', e) = read-waits pins line k (min d.wait_retry 128) (4 * i) v d few fits drives in
      (d', rw (b.plain, b.of_dp, b.reads, b.at_address, e))

  -- The answer of the probe to that request, with any waits that its retries allow.
  pub handle-read :
      (i k v : ℕ) (d : Dap (swd_transport pins)) (resp : List ℕ)
      → i < 4
      → k ≤ min d.wait_retry 128
      → v < 2 ^ 32
      → DrivesAfter pins line k (clock d.transport.pins) v
      → length resp ≡ 1024
      → (d' : Dap (swd_transport pins)) × (resp' : List ℕ) × (handle
            (swd_transport pins)
            d
            (read_request i)
            resp
          ≡ some (d', resp', 7))
        × (take 7 resp' ≡ 0x05 ∷ 1 ∷ 1 ∷ u32_to_le_bytes v)
  unfolding handle command
  handle-read i k v d (x ∷ x0 ∷ x1 ∷ rest) small few fits drives size =
      let t = swd_transport pins in
      let (d', e) = perform-read i k v d small few fits drives in
      let ran =
        dap_transfer-perform t d 0x05 0x00 1 x0 x1 (read_byte i ∷ []) rest (omega arith)
          (omega arith) in
      (
        d',
        0x05 ∷ 1 ∷ 1 ∷ (u32_to_le_bytes v ++ drop 4 rest),
        ap (behind t 0x05) (rw e at ran),
        refl,
      )
  handle-read i k v d resp small few fits drives size = absurd (omega arith)

-- The bytes of a response that are sent.
abbrev sent_of {ℓ} : {D : Type ℓ} → Option (D × List ℕ × ℕ) → List ℕ
sent_of none = []
sent_of (some (d, resp, n)) = take n resp

read_request-IsCommand : (i : ℕ) → i < 4 → IsCommand (read_request i)
read_request-IsCommand i h = record {
  not_empty = omega arith;
  fits = omega arith;
  bytes = (omega arith, (omega arith, (omega arith, (omega arith, tt))));
}

module _ (pins : Io) (line : Line pins) (network : Network) (tcp : TcpStream)
    (delivers : Delivers tcp) where
  open line use {clock}

  -- A register of the debug port, from the wires to the USB client: a client that sends the transfer
  -- which reads one register, and asks for the response in IN transfers whose limits add up to 1024
  -- bytes at least, gets a reply to every transfer, under its own sequence number and with success;
  -- the IN transfers' data is in order the command's byte, the count 1, the status OK and the four
  -- bytes of the word that the target drives on the data line, lowest first, after it has answered
  -- WAIT any number of times that the probe's retries allow. The word fits 32 bits, the line's level
  -- changes with the clock only, the link is connected to a session of the probe that waits with
  -- nothing under way, the transfers are well formed and on endpoints other than 0, and neither
  -- connection fails.
  pub urb_loop-read :
      (i k v : ℕ) (o : Submit) (ins : List Submit) (sent : List ℕ)
      (d : Device (probe_net (swd_transport pins) network)) (s : Session (swd_transport pins))
      → i < 4
      → v < 2 ^ 32
      → k ≤ min s.dap.wait_retry 128
      → DrivesAfter pins line k (clock s.dap.transport.pins) v
      → d.bridge.link.stream ≡ some s
      → IsReady (swd_transport pins) network s
      → o.payload ≡ read_request i
      → IsOut o
      → All IsIn ins
      → 1024 ≤ total limit_of ins
      → Brings
          (probe_net (swd_transport pins) network)
          tcp
          delivers
          o
          ins
          sent
          d
          (0x05 ∷ 1 ∷ 1 ∷ u32_to_le_bytes v)
  urb_loop-read i k v o ins sent d s small fits few drives here ready asks q h enough =
      let t = swd_transport pins in
      let (dap, resp, n, handled, brings) =
        urb_loop-handle t network tcp delivers o ins sent d s here ready
          (subst IsCommand (sym asks) (read_request-IsCommand i small)) q h enough in
      let (dap', resp', handled', bytes) =
        handle-read pins line i k v s.dap s.resp small few fits drives ready.size in
      let handled_i = ap (λ c. handle t s.dap c s.resp) (sym asks) ∙ handled in
      subst (λ r. Brings (probe_net t network) tcp delivers o ins sent d r)
        (ap (λ r. sent_of r) (sym handled_i ∙ handled') ∙ bytes) brings
