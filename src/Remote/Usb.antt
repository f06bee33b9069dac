-- ===== src/Remote/Usb.antt =====
-- A DAP command from the client of esp-daplink-host/src/usbip.rs to the probe and back.
use esp32_dap_proxy.Prelude.{
  ℕ, ◌≤◌, ◌≡◌, sym, ap, ◌∙◌, some, List, arith, length, take, length-take,
}
use esp32_dap_proxy.Prelude.Bytes.{All}
use esp32_dap_proxy.Transport.{Transport}
use esp32_dap_proxy.Dap.State.{Dap}
use esp32_dap_proxy.Dap.Handle.{handle}
use esp32_dap_proxy.Dap.Serve.{Session}
use esp32_dap_proxy.Usbip.Stream.{TcpStream, Delivers}
use esp32_dap_proxy.Usbip.Serve.{Device}
use esp32_dap_proxy.Usbip.Client.{Submit}
use esp32_dap_proxy.Bridge.Drain.{total}
use esp32_dap_proxy.Usbip.Bulk.{IsOut, IsIn, limit_of, Brings, urb_loop-bulk}
use esp32_dap_proxy.Remote.{Network, probe_net, IsReady}
use esp32_dap_proxy.Remote.Command.{IsCommand, request-handle}

module _ (t : Transport) (network : Network) (tcp : TcpStream) (delivers : Delivers tcp) where
  -- From end to end: a USB client that sends a command in a bulk OUT transfer, and asks for the
  -- response in IN transfers whose limits add up to 1024 bytes at least, gets a reply to every
  -- transfer, under its own sequence number and with success; the IN transfers' data, each no more
  -- than it asked for, is in order the response that the probe's `handle` gives to that command in
  -- the state in which the probe is. The command has 1 to 1024 bytes, the link is connected to a
  -- session of the probe that waits with nothing under way, the transfers are well formed and on
  -- endpoints other than 0, and neither connection fails.
  pub urb_loop-handle :
      (o : Submit) (ins : List Submit) (sent : List ℕ) (d : Device (probe_net t network))
      (s : Session t)
      → d.bridge.link.stream ≡ some s
      → IsReady t network s
      → IsCommand o.payload
      → IsOut o
      → All IsIn ins
      → 1024 ≤ total limit_of ins
      → (dap : Dap t) × (resp : List ℕ) × (n : ℕ) × (handle t s.dap o.payload s.resp
          ≡ some (dap, resp, n))
        × Brings (probe_net t network) tcp delivers o ins sent d (take n resp)
  urb_loop-handle o ins sent d s here ready asked q h enough =
      let net = probe_net t network in
      let (dap, resp, n, s', handled, got, _, resp_e, ready') =
        request-handle t network d.bridge.link s o.payload here ready asked in
      let size : length resp ≡ 1024 = ap length (sym resp_e) ∙ ready'.size in
      (
        dap,
        resp,
        n,
        handled,
        urb_loop-bulk net tcp delivers o ins (take n resp) sent d _ q h got
            (omega (arith, length-take n resp)),
      )
